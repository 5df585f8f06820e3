-- ===== src/Controller/Times.antt =====
-- The times of the nodes after a report: the loop of `map_insert` of src/controller/map.cpp.
use fz_daq.Prelude.{
  ℕ, suc, ◌≡◌, refl, ap, ◌∙◌, inl, inr, List, [], ◌∷◌, ◌++◌, true, false, ◌||◌, some, String, same,
  if◌then◌else◌, length, arith, Bool-cases, eq_iff, map,
}
use fz_daq.Controller.Map.{find, has}
use fz_daq.Controller.Entries.{NodupKeys}
use fz_daq.Controller.Loops.{touched}

pub has-map :
    (k j : String) (now : ℕ) (d : List (String × ℕ)) → has j (map (touched k now) d) ≡ has j d
unfolding has
has-map k j now [] = refl
has-map k j now ((h, t) ∷ d) = ap (λ b. same h j || b) (has-map k j now d)

pub NodupKeys-map :
    (k : String) (now : ℕ) (d : List (String × ℕ)) → NodupKeys d → NodupKeys (map (touched k now) d)
NodupKeys-map k now [] u = tt
NodupKeys-map k now ((h, t) ∷ d) u = (has-map k h now d ∙ u.0, NodupKeys-map k now d u.1)

find_known :
    (k : String) (now : ℕ) (d : List (String × ℕ))
    → has k d ≡ true
    → find k (map (touched k now) d) ≡ some now
unfolding find has
find_known k now [] h = cc
find_known k now ((j, t) ∷ d) h = ground (arith, find_known k now d)

find_other :
    (k j : String) (now : ℕ) (d : List (String × ℕ))
    → same k j ≡ false
    → find j (map (touched k now) d) ≡ find j d
unfolding find
find_other k j now [] e = refl
find_other k j now ((h, t) ∷ d) e = elim (Bool-cases (same h j)) [
  | inl x ↦
      let other : same h k ≡ false =
        let q : h ≡ j = (eq_iff h j).0 x in rw q (ground (arith, eq_iff j k, eq_iff k j, e)) in
      rw (x, other) refl
  | inr x ↦ rw x (find_other k j now d e)
]

pub find-append :
    (k j : String) (now : ℕ) (d : List (String × ℕ))
    → has k d ≡ false
    → find j (d ++ (k, now) ∷ []) ≡ (if same k j then some now else find j d)
unfolding find has
find-append k j now [] h = refl
find-append k j now ((i, t) ∷ d) h =
    ground (arith, find-append k j now d, eq_iff i j, eq_iff k j, eq_iff i k)

-- The time of a node after its entries are touched, and after an entry of its own is added.
pub find-map :
    (k j : String) (now : ℕ) (d : List (String × ℕ))
    → has k d ≡ true
    → find j (map (touched k now) d) ≡ (if same k j then some now else find j d)
unfolding find has
find-map k j now d h = elim (Bool-cases (same k j)) [
  | inl e ↦ rw (e, ← (eq_iff k j).0 e) (find_known k now d h)
  | inr e ↦ rw e (find_other k j now d e)
]

pub length-map :
    (k : String) (now : ℕ) (d : List (String × ℕ)) → length (map (touched k now) d) ≡ length d
length-map k now [] = refl
length-map k now (e ∷ d) = ap suc (length-map k now d)
