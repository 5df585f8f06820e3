-- ===== src/Fsm/Trigger.antt =====
-- Trigger information: `read_triggerinfo` and the last two steps of a block, from
-- src/parser/FzFSM.cpp, with the names of src/parser/FzFSM.h.
use fz_daq.Prelude.{
  ℕ, ◌+◌, ◌*◌, ◌/◌, ◌%◌, List, [], ◌∷◌, ltb, if◌then◌else◌, ◌==◌, get_elem?, Result, ok, err,
  bad_index, or_fault, ◌>>=◌, Cells,
}
use Prim.Native.String.{String}
use fz_daq.Event.{FzBlock, FzHit, FzTrigInfo, new_waveform}
use fz_daq.Fsm.State.{Fsm, u32, add_trinfo, or_new}

-- FzTriggerInfoBasic_str
unfoldable pub trigger_names : List String
trigger_names =
    "validation" ∷ "globtrg" ∷ "trigger0" ∷ "trigger1" ∷ "trigger2" ∷ "trigger3" ∷ "trigger4"
    ∷ "trigger5" ∷ "trigger6" ∷ "trigger7" ∷ "mantrig" ∷ "exttrig" ∷ "totaltime" ∷ "gttagmsb"
    ∷ "evtcntrmsb" ∷ "trigpattern" ∷ "temperature" ∷ []

-- FzCentrumInfo_str
unfoldable pub centrum_names : List String
centrum_names = "centrum0" ∷ "centrum1" ∷ "centrum2" ∷ "centrum3" ∷ []

-- The name of an entry: `idx` is the low byte of its identifier. The test on centrum names lets 4
-- through, which the array has no name for.
unfoldable pub entry_name : ℕ → Result String
unfolding trigger_names centrum_names
entry_name id =
    let idx = id % 256 in
    if ltb id 0x200
    then (if ltb 15 idx then ok "unknown" else or_fault bad_index (get_elem? trigger_names idx))
    else if ltb 4 idx
    then ok "unknown"
    else or_fault bad_index (get_elem? centrum_names idx)

-- The value of an entry (uint32); the division of integers below 2^32 by 150E6 in double is exact
-- once its fraction is dropped.
unfoldable pub entry_value : FzHit → ℕ → ℕ → ℕ → ℕ
entry_value h id msw lsw =
    let supp = u32 (msw * 32768 + lsw) in
    if id == 0x10C
    then u32 (supp * 4) / 150000000
    else if id == 0x10D
    then u32 (supp * 32768 + h.gttag)
    else if id == 0x10E
    then u32 (supp * 4096 + h.ec)
    else if id == 0x10F
    then supp % 256
    else supp

-- The loop over the samples, three at a time.
unfoldable pub read_entries : FzHit → List ℕ → Fsm → Result Fsm
unfolding entry_name entry_value
read_entries h [] s = ok s
read_entries h (id ∷ []) s = err bad_index
read_entries h (id ∷ msw ∷ []) s = err bad_index
read_entries h (id ∷ msw ∷ lsw ∷ rest) s = do
  name ← entry_name id
  let t : FzTrigInfo = record { id = id; attr = name; value = entry_value h id msw lsw }
  read_entries h rest (add_trinfo t s)

-- A repeated field's object at index 0: what a repeated field lists is there.
abbrev pub first {ℓ} : {A : Type ℓ} → Cells A → List ℕ → Result A
first c [] = err bad_index
first c (p ∷ ps) = ok (c.cell p)

unfoldable pub read_triggerinfo : FzBlock → Fsm → Result Fsm
unfolding read_entries
read_triggerinfo b s = do
  f ← first s.ev.fees b.fee
  h ← first s.ev.hits f.hit
  o ← first s.ev.datas h.datas
  read_entries h (or_new new_waveform o.waveform).sample s

-- RemoveLast of a repeated field; the object keeps its place in the store.
unfoldable pub drop_last {ℓ} : {A : Type ℓ} → List A → List A
drop_last [] = []
drop_last (x ∷ []) = []
drop_last (x ∷ y ∷ ys) = x ∷ drop_last (y ∷ ys)

unfoldable pub remove_last : Fsm → Fsm
unfolding drop_last
remove_last s = record s { ev = record s.ev { block = drop_last s.ev.block } }
