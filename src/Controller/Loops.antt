-- ===== src/Controller/Loops.antt =====
-- The loops of src/controller/map.cpp over the deque, whose index has eight bits.
use fz_daq.Prelude.{
  ℕ, zero, suc, ◌+◌, ◌<◌, ◌≤◌, ◌≡◌, refl, sym, ap, ◌∙◌, inl, inr, List, [], ◌∷◌, true, String, same,
  if◌then◌else◌, ltb, length, ok, err, out_of_fuel, arith, Bool-cases, map,
}
use fz_daq.Node.Report.{NodeReport}
use fz_daq.Controller.Map.{NodeMap, has, touch, touch_all, map_insert, u8}

-- The node's time is set wherever it stands from an index on.
abbrev pub touched : String → ℕ → String × ℕ → String × ℕ
touched k now (j, t) = (j, if same j k then now else t)

touch_from : ℕ → String → ℕ → List (String × ℕ) → List (String × ℕ)
touch_from zero k now d = map (touched k now) d
touch_from (suc i) k now [] = []
touch_from (suc i) k now (e ∷ d) = e ∷ touch_from i k now d

length-touch :
    (i : ℕ) (k : String) (now : ℕ) (d : List (String × ℕ)) → length (touch i k now d) ≡ length d
unfolding touch
length-touch i k now [] = refl
length-touch zero k now (e ∷ d) = refl
length-touch (suc i) k now (e ∷ d) = ap suc (length-touch i k now d)

touch_from-touch :
    (i : ℕ) (k : String) (now : ℕ) (d : List (String × ℕ))
    → touch_from (suc i) k now (touch i k now d) ≡ touch_from i k now d
unfolding touch_from touch
touch_from-touch zero k now [] = refl
touch_from-touch (suc i) k now [] = refl
touch_from-touch zero k now (e ∷ d) = refl
touch_from-touch (suc i) k now (e ∷ d) = ap (λ x. e ∷ x) (touch_from-touch i k now d)

touch_from_end :
    (i : ℕ) (k : String) (now : ℕ) (d : List (String × ℕ)) → length d ≤ i → touch_from i k now d ≡ d
unfolding touch_from
touch_from_end zero k now [] h = refl
touch_from_end zero k now (e ∷ d) h = absurd (omega arith)
touch_from_end (suc i) k now [] h = refl
touch_from_end (suc i) k now (e ∷ d) h = ap (λ x. e ∷ x) (touch_from_end i k now d (omega arith))

touch_all_from :
    (fuel i : ℕ) (k : String) (now : ℕ) (d : List (String × ℕ))
    → length d < 256
    → i ≤ length d
    → length d < fuel + i
    → touch_all fuel i k now d ≡ ok (touch_from i k now d)
unfolding touch_all
touch_all_from zero i k now d h l f = absurd (omega arith)
touch_all_from (suc fuel) i k now d h l f = elim (Bool-cases (ltb i (length d))) [
  | inl e ↦ rw e (
      let n = length-touch i k now d in
      let b : u8 (i + 1) ≡ suc i = ground arith in
      let ih =
        touch_all_from fuel (suc i) k now (touch i k now d) (omega arith) (ground arith)
          (omega arith) in
      rw b (ih ∙ ap ok (touch_from-touch i k now d)))
  | inr e ↦ rw e (ap ok (sym (touch_from_end i k now d (ground arith))))
]

-- With fewer than 256 nodes the loop of `map_insert` ends within 256 rounds, and it has set the
-- time of the node, wherever it stands in the deque, and of no other.
pub touch_all_ends :
    (fuel : ℕ) (k : String) (now : ℕ) (d : List (String × ℕ))
    → 256 ≤ fuel
    → length d < 256
    → touch_all fuel 0 k now d ≡ ok (map (touched k now) d)
unfolding touch_from
touch_all_ends fuel k now d f h = touch_all_from fuel 0 k now d h (omega arith) (omega arith)

touch_all_stuck :
    (fuel i : ℕ) (k : String) (now : ℕ) (d : List (String × ℕ))
    → 256 ≤ length d
    → i < 256
    → touch_all fuel i k now d ≡ err out_of_fuel
unfolding touch_all
touch_all_stuck zero i k now d h l = refl
touch_all_stuck (suc fuel) i k now d h l =
    let n = length-touch i k now d in
    let e : ltb i (length d) ≡ true = ground arith in
    rw e (touch_all_stuck fuel (u8 (i + 1)) k now (touch i k now d) (omega arith) (omega arith))

-- With 256 nodes or more the report of a node that is known makes `map_insert` loop for ever.
pub map_insert_hangs :
    (fuel now : ℕ) (k : String) (v : NodeReport) (m : NodeMap)
    → has k m.nodes ≡ true
    → 256 ≤ length m.deque
    → map_insert fuel now k v m ≡ err out_of_fuel
unfolding map_insert
map_insert_hangs fuel now k v m e h =
    rw e (rw (touch_all_stuck fuel 0 k now m.deque h (omega arith)) refl)
