-- ===== src/Comments/Store/Pages.antt =====
-- Pages of comments: ORDER BY id DESC, and the cursor of the next page.
use mathlib.Core.Path.{subst}
use mathlib.Core.List.{Perm}
use mathlib.Core.List.Perm
use portfolio_backend.Base.{
  sym, ℕ, ◌≤◌, ◌<◌, ◌≡◌, ◌≢◌, refl, ap, ◌∙◌, List, [], ◌∷◌, ◌++◌, Bool, true, false, ◌&&◌, filter,
  take, All, leb, arith, Bool-cases, inl, inr,
}
use portfolio_backend.Base.Int.{ℤ, pos, pos_part}
use portfolio_backend.Database.{Comment}
use portfolio_backend.Comments.Store.{insert_desc, order_desc, before, page}
use portfolio_backend.Comments.Store.Capacity.{DistinctIds}

-- Newest first, each identifier once.
abbrev pub Descending : List Comment → Type 0
Descending [] = Unit
Descending (c ∷ cs) = All (λ d. d.id < c.id) cs × Descending cs

pub insert_desc-perm : (c : Comment) (cs : List Comment) → Perm (insert_desc c cs) (c ∷ cs)
unfolding insert_desc
insert_desc-perm c [] = Perm.refl (c ∷ [])
insert_desc-perm c (d ∷ cs) = elim (Bool-cases (leb d.id c.id)) [
  | inl e ↦ rw e (Perm.refl (c ∷ d ∷ cs))
  | inr e ↦ rw e (Perm.trans (Perm.cons d (insert_desc-perm c cs)) (Perm.swap c d cs))
]

pub order_desc-perm : (cs : List Comment) → Perm (order_desc cs) cs
unfolding order_desc
order_desc-perm [] = Perm.refl []
order_desc-perm (c ∷ cs) =
    Perm.trans (insert_desc-perm c (order_desc cs)) (Perm.cons c (order_desc-perm cs))

insert-All :
    (P : Comment → Type 0) (c : Comment) (cs : List Comment)
    → P c
    → All P cs
    → All P (insert_desc c cs)
unfolding insert_desc
insert-All P c [] p a = (p, tt)
insert-All P c (d ∷ cs) p a = elim (Bool-cases (leb d.id c.id)) [
  | inl e ↦ rw e (p, a)
  | inr e ↦ rw e (a.0, insert-All P c cs p a.1)
]

pub order-All : (P : Comment → Type 0) (cs : List Comment) → All P cs → All P (order_desc cs)
unfolding order_desc
order-All P [] a = tt
order-All P (c ∷ cs) a = insert-All P c (order_desc cs) a.0 (order-All P cs a.1)

lower : (m n : ℕ) (cs : List Comment) → m ≤ n → All (λ d. d.id < m) cs → All (λ d. d.id < n) cs
lower m n [] h a = tt
lower m n (c ∷ cs) h a = (omega arith, lower m n cs h a.1)

insert-Descending :
    (c : Comment) (cs : List Comment)
    → All (λ d. d.id ≢ c.id) cs
    → Descending cs
    → Descending (insert_desc c cs)
unfolding insert_desc
insert-Descending c [] ne s = (tt, tt)
insert-Descending c (d ∷ cs) ne s = elim (Bool-cases (leb d.id c.id)) [
  | inl e ↦
      let below : d.id < c.id = ground (arith, ne.0) in
      rw e ((below, lower d.id c.id cs (omega arith) s.0), s)
  | inr e ↦
      rw e (insert-All (λ x. x.id < d.id) c cs (ground arith) s.0, insert-Descending c cs ne.1 s.1)
]

-- The listing is strictly newest first.
pub order_desc-Descending : (cs : List Comment) → DistinctIds cs → Descending (order_desc cs)
unfolding order_desc
order_desc-Descending [] d = tt
order_desc-Descending (c ∷ cs) d =
    insert-Descending c (order_desc cs) (order-All (λ x. x.id ≢ c.id) cs d.0)
      (order_desc-Descending cs d.1)

module _ (p : Comment → Bool) where
  filter-All : (P : Comment → Type 0) (cs : List Comment) → All P cs → All P (filter p cs)
  filter-All P [] a = tt
  filter-All P (c ∷ cs) a = ground (arith, filter-All P cs a.1)

  filter-DistinctIds : (cs : List Comment) → DistinctIds cs → DistinctIds (filter p cs)
  filter-DistinctIds [] d = tt
  filter-DistinctIds (c ∷ cs) d =
      ground (arith, filter-All (λ x. x.id ≢ c.id) cs d.0, filter-DistinctIds cs d.1)

  -- an entry above all others goes in front
  insert-top :
      (c : Comment) (cs : List Comment) → All (λ d. d.id < c.id) cs → insert_desc c cs ≡ c ∷ cs
  unfolding insert_desc
  insert-top c [] a = refl
  insert-top c (d ∷ cs) a = ground arith

  filter-insert_out :
      (c : Comment) (cs : List Comment) → p c ≡ false → filter p (insert_desc c cs) ≡ filter p cs
  unfolding insert_desc
  filter-insert_out c [] e = ground arith
  filter-insert_out c (d ∷ cs) e = ground (arith, filter-insert_out c cs e)

  filter-insert_in :
      (c : Comment) (cs : List Comment)
      → p c ≡ true
      → All (λ d. d.id ≢ c.id) cs
      → Descending cs
      → filter p (insert_desc c cs) ≡ insert_desc c (filter p cs)
  unfolding insert_desc
  filter-insert_in c [] e ne s = ground arith
  filter-insert_in c (d ∷ cs) e ne s = elim (Bool-cases (leb d.id c.id)) [
    | inl above ↦
        let below : d.id < c.id = ground (arith, ne.0) in
        rw (above, e)
          (sym (
            insert-top c (filter p (d ∷ cs)) (
              filter-All (λ x. x.id < c.id) (d ∷ cs)
                (below, lower d.id c.id cs (omega arith) s.0))))
    | inr under ↦ rw under (ground (arith, filter-insert_in c cs e ne.1 s.1))
  ]

  -- To select and then sort is to sort and then select.
  pub order_desc-filter :
      (cs : List Comment) → DistinctIds cs → order_desc (filter p cs) ≡ filter p (order_desc cs)
  unfolding order_desc
  order_desc-filter [] d = refl
  order_desc-filter (c ∷ cs) d = elim (Bool-cases (p c)) [
    | inl chosen ↦ rw chosen (
        ap (insert_desc c) (order_desc-filter cs d.1)
        ∙ sym (
            filter-insert_in c (order_desc cs) chosen (order-All (λ x. x.id ≢ c.id) cs d.0)
              (order_desc-Descending cs d.1)))
    | inr out ↦ rw out (order_desc-filter cs d.1 ∙ sym (filter-insert_out c (order_desc cs) out))
  ]

filter-and :
    (p q : Comment → Bool) (cs : List Comment)
    → filter (λ c. p c && q c) cs ≡ filter q (filter p cs)
filter-and p q [] = refl
filter-and p q (c ∷ cs) = ground (arith, filter-and p q cs)

All-middle :
    (P : Comment → Type 0) (front : List Comment) (c : Comment) (rest : List Comment)
    → All P (front ++ c ∷ rest)
    → P c
All-middle P [] c rest a = a.0
All-middle P (x ∷ front) c rest a = All-middle P front c rest a.1

before-All : (n : ℕ) (cs : List Comment) → All (λ d. d.id < n) cs → filter (before (pos n)) cs ≡ cs
unfolding before
before-All n [] a = refl
before-All n (c ∷ cs) a = ground (arith, before-All n cs a.1)

-- In a strictly descending listing, what is before a row is what follows it.
before-rest :
    (front : List Comment) (c : Comment) (rest : List Comment)
    → 0 < c.id
    → Descending (front ++ c ∷ rest)
    → filter (before (pos c.id)) (front ++ c ∷ rest) ≡ rest
unfolding before
before-rest [] c rest h s = ground (arith, before-All c.id rest s.0)
before-rest (x ∷ front) c rest h s =
    ground (arith, All-middle (λ d. d.id < x.id) front c rest s.0, before-rest front c rest h s.1)

before-start : (cs : List Comment) → filter (before (pos 0)) cs ≡ cs
unfolding before
before-start [] = refl
before-start (c ∷ cs) = ap (◌∷◌ c) (before-start cs)

-- With no cursor a page is the start of the listing: the selected rows, newest first.
pub first_page :
    (selected : Comment → Bool) (limit : ℤ) (rows : List Comment)
    → page selected (pos 0) limit rows ≡ take (pos_part limit) (order_desc (filter selected rows))
unfolding page
first_page selected limit rows =
    ap (λ cs. take (pos_part limit) (order_desc cs))
      (filter-and selected (before (pos 0)) rows ∙ before-start (filter selected rows))

-- The identifier of any row of the listing is the cursor of what follows that row: the next page
-- starts right behind it. So pages that are read by the last identifier of each give the listing
-- in order, with no row twice and none left out.
pub next_page :
    (selected : Comment → Bool) (limit : ℤ) (rows front : List Comment) (c : Comment)
    (rest : List Comment)
    → DistinctIds rows
    → 0 < c.id
    → order_desc (filter selected rows) ≡ front ++ c ∷ rest
    → page selected (pos c.id) limit rows ≡ take (pos_part limit) rest
unfolding page
next_page selected limit rows front c rest d positive listing =
    let chosen = filter-DistinctIds selected rows d in
    let descending : Descending (front ++ c ∷ rest) =
      subst Descending listing (order_desc-Descending (filter selected rows) chosen) in
    ap (take (pos_part limit)) (
      ap order_desc (filter-and selected (before (pos c.id)) rows)
      ∙ order_desc-filter (before (pos c.id)) (filter selected rows) chosen
      ∙ ap (filter (before (pos c.id))) listing
      ∙ before-rest front c rest positive descending)
