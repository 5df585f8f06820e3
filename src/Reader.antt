-- ===== src/Reader.antt =====
-- How datagrams become events: `udp_handler` of src/reader/FzReader.cpp, for the event NS_RECV.
mod Stream
mod Framing
mod Counts
mod Rounds
mod Tests
use fz_daq.Prelude.{
  ℕ, zero, suc, ◌+◌, ◌-◌, ◌*◌, ◌/◌, ◌%◌, List, [], ◌∷◌, ◌++◌, Bool, true, false, ◌||◌, ltb,
  if◌then◌else◌, ◌==◌, length, get_elem?, Result, ok, err, bad_index, or_fault, ◌>>=◌,
}
use fz_daq.Rc.{RcState, idle, ready, running, paused}

-- The counters of src/proto/FzNodeReport.proto that the reader keeps (uint64).
pub record ReaderReport : Type 0 where
  pub in_bytes : ℕ
  pub out_bytes : ℕ
  pub in_events : ℕ
  pub out_events : ℕ

-- A file written when recording: the two numbers of its name, and its words.
pub record RecordFile : Type 0 where
  pub second_word : ℕ
  pub file_no : ℕ
  pub words : List ℕ

-- The static variables of the handler, what its callback data points to, and what it has sent to
-- the socket and recorded, in order.
pub record Reader : Type 0 where
  pub chunk : List ℕ
  pub fileno : ℕ
  pub recording : Bool
  pub report : ReaderReport
  pub sent : List (List ℕ)
  pub files : List RecordFile

abbrev pub max_event_size : ℕ
max_event_size = 10000000

abbrev pub wrap : ℕ → ℕ
wrap n = n % 18446744073709551616

-- (value & REGHDR_FMT) == REGHDR_TAG
abbrev pub ends_event : ℕ → Bool
ends_event value = value / 2048 % 32 == 25

-- `chunk[1]` stands in the file's name.
unfoldable pub record_event : Reader → Result Reader
record_event r = do
  second ← or_fault bad_index (get_elem? r.chunk 1)
  let file : RecordFile = record { second_word = second; file_no = r.fileno; words = r.chunk }
  ok (record r { files = r.files ++ file ∷ []; fileno = (r.fileno + 1) % 4294967296 })

-- The message is counted and sent, and the chunk cleared.
unfoldable pub send_event : Reader → Reader
send_event r =
    let q = r.report in
    record r {
      report = record q {
        in_events = wrap (q.in_events + 1);
        out_events = wrap (q.out_events + 1);
        out_bytes = wrap (q.out_bytes + length r.chunk * 2);
      };
      sent = r.sent ++ r.chunk ∷ [];
      chunk = [];
    }

-- The body of the loop.
unfoldable pub put_word : ℕ → Reader → Result Reader
unfolding record_event send_event
put_word value r = do
  let t = record r { chunk = r.chunk ++ value ∷ [] }
  if ends_event value
      then (do u ← if t.recording then record_event t else ok t; ok (send_event u))
      else ok t

-- `memory` holds the 16-bit words that `io->buf` points to: `bufusint[i]` is `memory i`, also behind
-- the datagram's end. These are `n` words from the one numbered `i` on.
unfoldable pub buffer_words : (ℕ → ℕ) → ℕ → ℕ → List ℕ
buffer_words memory i zero = []
buffer_words memory i (suc n) = memory i ∷ buffer_words memory (suc i) n

unfoldable pub put_words : List ℕ → Reader → Result Reader
put_words [] r = ok r
put_words (w ∷ ws) r = put_word w r >>= put_words ws

-- The number of words of a datagram of `len` bytes.
abbrev pub evlen_of : ℕ → ℕ
evlen_of len = if len / 2 * 2 == len then len / 2 else len / 2 + 1

abbrev pub offset_of : (ℕ → ℕ) → ℕ
offset_of memory = if memory 0 == 0x8080 || memory 1 == 0x8080 || memory 2 == 0x8080 then 3 else 2

-- The words that the loop runs over: none if the datagram ends before the offset.
unfoldable pub payload : (ℕ → ℕ) → ℕ → List ℕ
unfolding buffer_words
payload memory len = buffer_words memory (offset_of memory) (evlen_of len - offset_of memory)

abbrev discard : Reader → Reader
discard r = if ltb (length r.chunk) max_event_size then r else record r { chunk = [] }

abbrev count_bytes : ℕ → Reader → Reader
count_bytes len r = record r {
  report = record r.report { in_bytes = wrap (r.report.in_bytes + len) };
}

unfoldable pub udp_handler : (ℕ → ℕ) → ℕ → Reader → Result Reader
unfolding put_words payload
udp_handler memory len r = do t ← put_words (payload memory len) r; ok (discard (count_bytes len t))

-- The class FzReader: its state beside what the handler works on.
pub record ReaderThread : Type 0 where
  pub rcstate : RcState
  pub handler : Reader

unfoldable pub record_events : Bool → ReaderThread → ReaderThread
record_events val t = record t { handler = record t.handler { recording = val } }

unfoldable pub set_rcstate : RcState → ReaderThread → ReaderThread
set_rcstate s t = record t { rcstate = s }

abbrev pub polls : RcState → Bool
polls running = true
polls _ = false

unfoldable pub handle_all : List ((ℕ → ℕ) × ℕ) → Reader → Result Reader
unfolding udp_handler
handle_all [] r = ok r
handle_all ((memory, len) ∷ ds) r = udp_handler memory len r >>= handle_all ds

-- A round of `process`, with the datagrams that `ns_mgr_poll` finds: it calls the handler for each.
unfoldable pub reader_round : List ((ℕ → ℕ) × ℕ) → ReaderThread → Result ReaderThread
unfolding handle_all
reader_round ds t =
    if polls t.rcstate
    then (handle_all ds t.handler >>= λ r. ok (record t { handler = r }))
    else ok t
