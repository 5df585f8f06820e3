-- ===== src/Weblog.antt =====
-- The web log: class FZHttpPost of src/logger/FzHttpPost.cpp, and what src/controller/weblog.cpp
-- posts with it of the nodes' reports.
pub mod Lines
pub mod Rows
pub mod Runs
mod Rounds
mod Tests
use fz_daq.Prelude.{
  ℕ, zero, suc, ◌+◌, ◌%◌, List, [], ◌∷◌, ◌++◌, Bool, true, false, ◌==◌, ltb, not, Option, none,
  some, String, if◌then◌else◌, Result, ok, err, ◌>>=◌, bad_index,
}
use fz_daq.Node.Report.{NodeReport, Traffic, FsmTraffic}

-- A key of the POST: an element `fPHPArrayName[line][name]`, kept as its line and name, or a field of
-- the header.
pub data Key : Type 0 where
  element : ℕ → String → Key
  field : String → Key

-- A value: a text, or a number that `std::to_string` prints.
pub data Value : Type 0 where
  text : String → Value
  number : ℕ → Value

-- The members, with the static `fMaxPHP`; `form` is what `formpost` points to. `posted` are the POSTs
-- handed to libcurl so far.
pub record Post : Type 0 where
  pub max_php : ℕ
  pub user : String
  pub category : String
  pub pairs_per_line : ℕ
  pub line_number : ℕ
  pub post_pairs : ℕ
  pub form : List (Key × Value)
  pub posted : List (List (Key × Value))

abbrev pub hdr_elements : ℕ
hdr_elements = 2

unfoldable pub set_phplimit : ℕ → Post → Post
set_phplimit max p = record p { max_php = max }

-- What the static `fMaxPHP` holds when the program starts.
abbrev default_max_php : ℕ
default_max_php = 1000

-- The constructor; the line's members are not set.
unfoldable pub new_http_post : Post → Post
new_http_post unset = record unset {
  user = "SlowControls";
  category = "SlowControls";
  form = [];
  posted = [];
}

unfoldable pub set_dbuser_name : String → Post → Post
set_dbuser_name a p = record p { user = a }

unfoldable pub set_dbcategory : String → Post → Post
set_dbcategory a p = record p { category = a }

unfoldable pub add_key_value_pair : Key → Value → Post → Post
add_key_value_pair k v p = record p { form = p.form ++ (k, v) ∷ []; post_pairs = suc p.post_pairs }

unfoldable pub new_post : Post → Post
new_post p = record p { form = []; line_number = 0; pairs_per_line = 0; post_pairs = 0 }

unfoldable pub add_to_post : String → Value → Post → Post
unfolding add_key_value_pair
add_to_post name v p = add_key_value_pair (element p.line_number name) v p

unfoldable pub send_post : Post → Post
unfolding add_key_value_pair
send_post p =
    if p.post_pairs == 0
    then p
    else let q =
        add_key_value_pair (field "category") (text p.category)
          (add_key_value_pair (field "user") (text p.user) p) in
      record q { posted = q.posted ++ q.form ∷ []; form = []; line_number = 0; post_pairs = 0 }

-- (fPostPairs + fNHdrElements) > (fMaxPHP - fPairsPerLine), on signed numbers.
unfoldable pub check_phplimit : Post → Bool
check_phplimit p = ltb p.max_php (p.post_pairs + hdr_elements + p.pairs_per_line)

unfoldable pub new_line : Post → Post
unfolding send_post check_phplimit
new_line p =
    if p.post_pairs == 0
    then p
    else let q = if p.pairs_per_line == 0 then record p { pairs_per_line = p.post_pairs } else p in
      if check_phplimit q then send_post q else record q { line_number = suc q.line_number }

-- Calls of `AddToPost`, one after the other.
unfoldable pub add_all : List (String × Value) → Post → Post
unfolding add_to_post
add_all [] p = p
add_all ((name, v) ∷ l) p = add_all l (add_to_post name v p)

-- The body of both loops of `process_weblog`, for a row.
unfoldable pub post_row : String → List (String × Value) → Post → Post
unfolding set_dbcategory add_all new_line
post_row category l p = new_line (add_all l (set_dbcategory category p))

-- The totals of a node (uint32).
pub record Totals : Type 0 where
  pub state_invalid : ℕ
  pub events_empty : ℕ
  pub events_good : ℕ
  pub events_bad : ℕ

abbrev u32 : ℕ → ℕ
u32 n = n % 4294967296

-- The loop up to `parser_num`, over the report's `fsm(i)`.
unfoldable pub add_totals : ℕ → List FsmTraffic → Totals → Result Totals
add_totals zero fs t = ok t
add_totals (suc n) [] t = err bad_index
add_totals (suc n) (f ∷ fs) t = add_totals n fs (record {
  state_invalid = u32 (t.state_invalid + f.state_invalid);
  events_empty = u32 (t.events_empty + f.events_empty);
  events_good = u32 (t.events_good + f.events_good);
  events_bad = u32 (t.events_bad + f.events_bad);
})

unfoldable pub reader_fields : String → Traffic → Totals → List (String × Value)
reader_fields host r t =
    ("hostname", text host)
    ∷ ("in_data", number r.in_bytes)
    ∷ ("in_databw", number r.in_bytes_bw)
    ∷ ("in_event", number r.in_events)
    ∷ ("in_eventbw", number r.in_events_bw)
    ∷ ("state_invalid", number t.state_invalid)
    ∷ ("events_empty", number t.events_empty)
    ∷ ("events_good", number t.events_good)
    ∷ ("events_bad", number t.events_bad)
    ∷ []

unfoldable pub writer_fields : String → Traffic → List (String × Value)
writer_fields host w =
    ("hostname", text host)
    ∷ ("out_data", number w.out_bytes)
    ∷ ("out_databw", number w.out_bytes_bw)
    ∷ ("out_event", number w.out_events)
    ∷ ("out_eventbw", number w.out_events_bw)
    ∷ []

-- `if(!send) { send = true; post.NewPost(); }`
abbrev pub opened : Bool → Post → Post
opened send p = if send then p else new_post p

abbrev pub no_totals : Totals
no_totals = record { state_invalid = 0; events_empty = 0; events_good = 0; events_bad = 0 }

-- The first loop's body, for the report of a node and its reader's part: `send` and the POST.
unfoldable pub post_reader : NodeReport → Option Traffic → Bool × Post → Result (Bool × Post)
unfolding add_totals reader_fields post_row new_post
post_reader rep none s = ok s
post_reader rep (some r) (send, p) = add_totals rep.parser_num rep.fsms no_totals >>= λ t.
    ok (true, post_row "daq_reader" (reader_fields rep.hostname r t) (opened send p))

-- The first loop, over the map in its order, and the report that `rep` is left as.
unfoldable pub post_readers :
    List NodeReport → NodeReport × Bool × Post → Result (NodeReport × Bool × Post)
unfolding post_reader
post_readers [] s = ok s
post_readers (node ∷ nodes) (rep, send, p) =
    post_reader node node.reader (send, p) >>= λ t. post_readers nodes (node, t.0, t.1)

-- The second loop's body, for the writer's part of a report.
unfoldable pub post_writer : NodeReport → Option Traffic → Bool × Post → Bool × Post
unfolding writer_fields post_row new_post
post_writer rep none s = s
post_writer rep (some w) (send, p) =
    (true, post_row "daq_writer" (writer_fields rep.hostname w) (opened send p))

-- The second loop: its body reads `rep`, not the node that the loop is at.
unfoldable pub post_writers : List NodeReport → NodeReport → Bool × Post → Bool × Post
unfolding post_writer
post_writers [] rep s = s
post_writers (node ∷ nodes) rep s = post_writers nodes rep (post_writer rep rep.writer s)

-- `if(send) post.SendPost();`
abbrev pub closed : Bool × Post → Post
closed (send, p) = if send then send_post p else p

-- What the configuration says of the web log: its URL, user and interval in seconds, when it has all
-- three.
unfoldable pub configure_weblog :
    Bool → (String → Option String) → (String → Option ℕ) → Option (String × String × ℕ)
configure_weblog hascfg lookup lookup_number =
    if hascfg
    then elim (lookup "fzdaq.fzcontroller.weblog.url") [
      | none ↦ none
      | some url ↦ elim (lookup "fzdaq.fzcontroller.weblog.username") [
        | none ↦ none
        | some user ↦ elim (lookup_number "fzdaq.fzcontroller.weblog.interval") [
          | none ↦ none
          | some interval ↦ some (url, user, interval)
        ]
      ]
    ]
    else none

-- What `process_weblog` begins with, for a user.
unfoldable pub start_weblog : String → Post → Post
unfolding new_http_post set_dbuser_name
start_weblog user unset =
    set_dbuser_name user (new_http_post (record unset { max_php = default_max_php }))

-- A round of `process_weblog`; `rep` keeps what the round before left in it.
unfoldable pub weblog_round : List NodeReport → NodeReport × Post → Result (NodeReport × Post)
unfolding post_readers post_writers send_post
weblog_round nodes (rep, p) = post_readers nodes (rep, false, p) >>= λ r.
    ok (r.0, closed (post_writers nodes r.0 (false, closed (r.1, r.2))))
