-- ===== src/Weblog/Rows.antt =====
-- How the rows are spread over POSTs: `NewLine` and `SendPost` of src/logger/FzHttpPost.cpp.
use fz_daq.Prelude.{
  ℕ, suc, ◌+◌, ◌<◌, ◌≤◌, ◌≡◌, refl, sym, ap, ◌∙◌, ◌⊎◌, inl, inr, List, [], ◌∷◌, ◌++◌, map, String,
  length, length-append, arith, if_both,
}
use mathlib.Core.List.{append_assoc, append-nil}
use fz_daq.Weblog.{
  Key, Value, field, text, Post, send_post, check_phplimit, new_line, set_dbcategory, post_row,
}
use fz_daq.Weblog.Lines.{
  Row, numbered, elements, post_of, total, total-append, elements-snoc, filled, add_all-filled,
  send_post-sent, new_line-width,
}

-- Where the rows are: `sent` are the POSTs of whole rows that are gone, of no more pairs than the
-- limit, and `current` are the rows that wait, with room for another.
pub record Holds (k : ℕ) (category : String) (before : List (List (Key × Value))) (max : ℕ)
    (user : String) (sent : List (List Row)) (current : List Row) (p : Post) : Type 0 where
  pub limit : p.max_php ≡ max
  pub name : p.user ≡ user
  pub form : p.form ≡ elements 0 current
  pub line : p.line_number ≡ length current
  pub pairs : p.post_pairs ≡ total current
  pub width : (p.pairs_per_line ≡ k) ⊎ ((p.pairs_per_line ≡ 0) × (current ≡ []))
  pub room : total current + 2 + k ≤ max
  pub empty : total current ≡ 0 → current ≡ []
  pub kind : (p.category ≡ category) ⊎ (current ≡ [])
  pub gone : p.posted ≡ before ++ map (post_of user category) sent

-- The rows of the POSTs, in order.
abbrev pub joined : List (List Row) → List Row
joined [] = []
joined (ls ∷ lss) = ls ++ joined lss

abbrev pub Within : ℕ → List (List Row) → Type 0
Within max [] = Unit {0}
Within max (ls ∷ lss) = (total ls + 2 ≤ max) × Within max lss

abbrev pub State : ℕ → String → List (List (Key × Value)) → ℕ → String → List Row → Post → Type 0
State k category before max user all p =
    (sent : List (List Row)) × (current : List Row) × Holds k category before max user sent current
      p
    × (joined sent ++ current ≡ all)
    × Within max sent

pub map-snoc :
    {A B : Type 0} (f : A → B) (xs : List A) (x : A) → map f (xs ++ x ∷ []) ≡ map f xs ++ f x ∷ []
map-snoc f [] x = refl
map-snoc f (y ∷ xs) x = ap (λ zs. f y ∷ zs) (map-snoc f xs x)

pub joined-snoc :
    (lss : List (List Row)) (ls : List Row) → joined (lss ++ ls ∷ []) ≡ joined lss ++ ls
joined-snoc [] ls = append-nil ls
joined-snoc (ms ∷ lss) ls =
    ap (λ x. ms ++ x) (joined-snoc lss ls) ∙ sym (append_assoc ms (joined lss) ls)

pub Within-snoc :
    (max : ℕ) (lss : List (List Row)) (ls : List Row)
    → Within max lss
    → total ls + 2 ≤ max
    → Within max (lss ++ ls ∷ [])
Within-snoc max [] ls w h = (h, tt)
Within-snoc max (ms ∷ lss) ls (a, w) h = (a, Within-snoc max lss ls w h)

pub post_of-elements :
    (user category : String) (p : Post) (ls : List Row)
    → p.form ≡ elements 0 ls
    → p.user ≡ user
    → p.category ≡ category
    → ((p.form ++ (field "user", text p.user) ∷ []) ++ (field "category", text p.category) ∷ [])
      ≡ post_of user category ls
post_of-elements user category p ls e f g =
    rw (e, f, g)
      (append_assoc (elements 0 ls) ((field "user", text user) ∷ [])
        ((field "category", text category) ∷ []))

module _ (k : ℕ) (category : String) (before : List (List (Key × Value))) (max : ℕ)
    (user : String) where
  elements-line :
      (current : List Row) (l : Row) (p : Post)
      → p.form ≡ elements 0 current
      → p.line_number ≡ length current
      → p.form ++ numbered p.line_number l ≡ elements 0 (current ++ l ∷ [])
  elements-line current l p e f =
      rw (e, f)
        (ap (λ n. elements 0 current ++ numbered n l) (omega arith)
          ∙ sym (elements-snoc 0 current l))

  State-eq :
      (all : List Row) (p q : Post)
      → p ≡ q
      → State k category before max user all q
      → State k category before max user all p
  State-eq all p q e h = rw e h

  -- The row fills the POST, which goes.
  sent-State :
      (all : List Row) (l : Row) (sent : List (List Row)) (current : List Row) (r : Post)
      → k + 2 ≤ max
      → total (current ++ l ∷ []) + 2 ≤ max
      → 0 < r.post_pairs
      → r.pairs_per_line ≡ k
      → r.max_php ≡ max
      → r.user ≡ user
      → r.category ≡ category
      → r.form ≡ elements 0 (current ++ l ∷ [])
      → r.posted ≡ before ++ map (post_of user category) sent
      → joined sent ++ current ≡ all
      → Within max sent
      → State k category before max user (all ++ l ∷ []) (send_post r)
  sent-State all l sent current r m t h b a u c f g j w =
      let ls = current ++ l ∷ [] in
      State-eq (all ++ l ∷ []) (send_post r) _ (send_post-sent r h) (
        sent ++ ls ∷ [],
        [],
        record {
          limit = a;
          name = u;
          form = refl;
          line = refl;
          pairs = refl;
          width = inl b;
          room = omega (arith, m);
          empty = λ _. refl;
          kind = inr refl;
          gone =
              ap (λ x. r.posted ++ x ∷ []) (post_of-elements user category r ls f u c)
              ∙ ap (λ x. x ++ post_of user category ls ∷ []) g
              ∙ append_assoc before (map (post_of user category) sent)
                  (post_of user category ls ∷ [])
              ∙ ap (λ x. before ++ x) (sym (map-snoc (post_of user category) sent ls));
        },
        append-nil (joined (sent ++ ls ∷ []))
            ∙ joined-snoc sent ls
            ∙ sym (append_assoc (joined sent) current (l ∷ []))
            ∙ ap (λ x. x ++ l ∷ []) j,
        Within-snoc max sent ls w t,
      )

  pub row-State :
      (all : List Row) (l : Row) (p : Post)
      → 0 < k
      → k + 2 ≤ max
      → length l ≡ k
      → State k category before max user all p
      → State k category before max user (all ++ l ∷ []) (post_row category l p)
  unfolding post_row set_dbcategory check_phplimit
  row-State all l p h m e (sent, current, s, j, w) =
      let c = set_dbcategory category p in
      let q = filled c (p.form ++ numbered p.line_number l) (p.post_pairs + length l) in
      let r = record q { pairs_per_line = k } in
      let f = elements-line current l p s.form s.line in
      let t = total-append current (l ∷ []) in
      let width : (q.pairs_per_line ≡ k) ⊎ ((q.pairs_per_line ≡ 0) × (q.post_pairs ≡ k)) =
        elim s.width [
          | inl x ↦ inl x
          | inr (x, y) ↦ inr (x, omega (arith, s.pairs, ap total y, e))
        ] in
      let step =
        ap new_line (add_all-filled l c) ∙ new_line-width k q (omega (arith, h, e)) width h in
      let goal = λ (x : Post). State k category before max user (all ++ l ∷ []) x in
      State-eq (all ++ l ∷ []) (post_row category l p) _ step (
        if_both goal (check_phplimit r) (send_post r) (record r { line_number = suc r.line_number })
          (λ _.
            sent-State all l sent current r m (omega (arith, s.room, t, e)) (omega (arith, h, e))
              refl s.limit s.name refl f s.gone j w)
          λ x. (
            sent,
            current ++ l ∷ [],
            record {
              limit = s.limit;
              name = s.name;
              form = f;
              line = omega (arith, s.line, length-append current (l ∷ []));
              pairs = omega (arith, s.pairs, t);
              width = inl refl;
              room = ground (arith, x, s.limit, s.pairs, t, e);
              empty = λ z. absurd (omega (arith, z, t, e, h));
              kind = inl refl;
              gone = s.gone;
            },
            sym (append_assoc (joined sent) current (l ∷ [])) ∙ ap (λ y. y ++ l ∷ []) j,
            w,
          ))
