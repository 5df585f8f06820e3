-- ===== src/Weblog/Runs.antt =====
-- All the rows between `NewPost` and the last `SendPost` of src/logger/FzHttpPost.cpp.
use fz_daq.Prelude.{
  ℕ, ◌+◌, ◌<◌, ◌≤◌, ◌≡◌, refl, sym, ap, ◌∙◌, inl, inr, List, [], ◌∷◌, ◌++◌, map, ◌==◌, String,
  length, arith, Bool-cases,
}
use mathlib.Core.List.{append_assoc, append-nil}
use fz_daq.Weblog.{Post, new_post, send_post, post_row}
use fz_daq.Weblog.Lines.{Row, elements, post_of, total, send_post-none, send_post-sent}
use fz_daq.Weblog.Rows.{
  State, joined, Within, joined-snoc, Within-snoc, map-snoc, post_of-elements, row-State,
}

abbrev pub Wide : ℕ → List Row → Type 0
Wide k [] = Unit {0}
Wide k (l ∷ ls) = (length l ≡ k) × Wide k ls

abbrev pub post_rows : String → List Row → Post → Post
post_rows category [] p = p
post_rows category (l ∷ ls) p = post_rows category ls (post_row category l p)

-- What a run of rows comes to: the POSTs that were added hold whole rows, numbered from 0 in each,
-- with the header's fields, no more pairs each than the limit, and all the rows in order.
abbrev pub Posted : String → List Row → Post → Post → Type 0
Posted category rows before after =
    (sent : List (List Row)) × (after.posted
      ≡ before.posted ++ map (post_of before.user category) sent)
    × (joined sent ≡ rows)
    × Within before.max_php sent
    × (after.form ≡ [])
    × (after.user ≡ before.user)
    × (after.max_php ≡ before.max_php)

module _ (k : ℕ) (category : String) (before : Post) where
  rows-State :
      (all ls : List Row) (p : Post)
      → 0 < k
      → k + 2 ≤ before.max_php
      → Wide k ls
      → State k category before.posted before.max_php before.user all p
      → State k category before.posted before.max_php before.user
          (all ++ ls)
          (post_rows category ls p)
  rows-State all [] p h m w s = rw (append-nil all) s
  rows-State all (l ∷ ls) p h m w s = rw⁻¹ (append_assoc all (l ∷ []) ls) (
      rows-State (all ++ l ∷ []) ls (post_row category l p) h m w.1
        (row-State k category before.posted before.max_php before.user all l p h m w.0 s))

  start-State :
      k + 2 ≤ before.max_php
      → State k category before.posted before.max_php before.user [] (new_post before)
  unfolding new_post
  start-State m = (
    [],
    [],
    record {
      limit = refl;
      name = refl;
      form = refl;
      line = refl;
      pairs = refl;
      width = inr (refl, refl);
      room = omega (arith, m);
      empty = λ _. refl;
      kind = inr refl;
      gone = sym (append-nil before.posted);
    },
    refl,
    tt,
  )

  Posted-eq :
      (all : List Row) (p q : Post)
      → p ≡ q
      → Posted category all before q
      → Posted category all before p
  Posted-eq all p q e h = rw e h

  end-Posted :
      (all : List Row) (p : Post)
      → State k category before.posted before.max_php before.user all p
      → Posted category all before (send_post p)
  end-Posted all p (sent, current, s, j, w) = elim (Bool-cases (p.post_pairs == 0)) [
    | inl e ↦
        let none = s.empty (ground (arith, e, s.pairs)) in
        Posted-eq all (send_post p) p (send_post-none p e) (
          sent,
          s.gone,
          sym (append-nil (joined sent)) ∙ ap (λ c. joined sent ++ c) (sym none) ∙ j,
          w,
          s.form ∙ ap (elements 0) none,
          s.name,
          s.limit,
        )
    | inr e ↦
        let some_pair : 0 < p.post_pairs = ground (arith, e) in
        let kind : p.category ≡ category = elim s.kind [
          | inl c ↦ c
          | inr c ↦ absurd (omega (arith, some_pair, s.pairs, ap total c))
        ] in
        Posted-eq all (send_post p) _ (send_post-sent p some_pair) (
          sent ++ current ∷ [],
          ap (λ x. p.posted ++ x ∷ [])
                (post_of-elements before.user category p current s.form s.name kind)
              ∙ ap (λ x. x ++ post_of before.user category current ∷ []) s.gone
              ∙ append_assoc before.posted (map (post_of before.user category) sent)
                  (post_of before.user category current ∷ [])
              ∙ ap (λ x. before.posted ++ x)
                  (sym (map-snoc (post_of before.user category) sent current)),
          joined-snoc sent current ∙ j,
          Within-snoc before.max_php sent current w (omega (arith, s.room)),
          refl,
          s.name,
          s.limit,
        )
  ]

-- Rows of equally many pairs, with the header's few not more than the limit: whatever their number,
-- from `NewPost` to the last `SendPost` the POSTs hold whole rows, numbered from 0 in each, with the
-- header's fields, no more pairs each than the limit, and all the rows in order.
pub post_rows-Posted :
    (k : ℕ) (category : String) (rows : List Row) (p : Post)
    → 0 < k
    → k + 2 ≤ p.max_php
    → Wide k rows
    → Posted category rows p (send_post (post_rows category rows (new_post p)))
post_rows-Posted k category rows p h m w =
    end-Posted k category p rows (post_rows category rows (new_post p))
      (rows-State k category p [] rows (new_post p) h m w (start-State k category p m))
