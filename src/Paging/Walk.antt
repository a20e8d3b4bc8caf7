-- ===== src/Paging/Walk.antt =====
-- What is seen page by page (web/src/hooks/usePagination.ts, web/src/components/Pagination.tsx).
use court_command.Prelude.{
  ℕ, zero, suc, ◌+◌, ◌-◌, ◌*◌, ◌/◌, ◌≤◌, ◌<◌, ◌≡◌, refl, sym, ap, ◌∙◌, inl, inr, true, false, some,
  List, [], ◌∷◌, ◌++◌, arith, Bool-cases, length,
}
use native.Mathlib.Nat.{div-add-mod', mod-lt, mul-le-mul_right, suc-mul}
use court_command.Paging.{initial, offset, set_page, total_pages, next_enabled, walk}

zero_plus : (m : ℕ) → m ≡ 0 + m
zero_plus m = omega arith

suc_plus : (n m : ℕ) → suc (n + m) ≡ suc n + m
suc_plus n m = omega arith

none_below : (n : ℕ) → ¬ (suc n ≤ 0)
none_below n = omega arith

below : (n m : ℕ) → suc n ≤ suc m → n ≤ m
below n m h = omega arith

module _ {A : Type 0} where
  abbrev pub take : ℕ → List A → List A
  take zero xs = []
  take (suc n) [] = []
  take (suc n) (x ∷ xs) = x ∷ take n xs

  abbrev pub drop : ℕ → List A → List A
  drop zero xs = xs
  drop (suc n) [] = []
  drop (suc n) (x ∷ xs) = drop n xs

  abbrev pub concat : List (List A) → List A
  concat [] = []
  concat (xs ∷ xss) = xs ++ concat xss

  take-drop : (n : ℕ) (xs : List A) → take n xs ++ drop n xs ≡ xs
  take-drop zero xs = refl
  take-drop (suc n) [] = refl
  take-drop (suc n) (x ∷ xs) = ap (λ ys. x ∷ ys) (take-drop n xs)

  drop-nil : (n : ℕ) → drop n [] ≡ []
  drop-nil zero = refl
  drop-nil (suc n) = refl

  drop-drop : (m n : ℕ) (xs : List A) → drop m (drop n xs) ≡ drop (n + m) xs
  drop-drop m zero xs = ap (λ k. drop k xs) (zero_plus m)
  drop-drop m (suc n) [] = drop-nil m ∙ sym (drop-nil (suc n + m))
  drop-drop m (suc n) (x ∷ xs) = drop-drop m n xs ∙ ap (λ k. drop k (x ∷ xs)) (suc_plus n m)

  take-all : (n : ℕ) (xs : List A) → length xs ≤ n → take n xs ++ [] ≡ xs
  take-all zero [] h = refl
  take-all (suc n) [] h = refl
  take-all zero (x ∷ xs) h = absurd (none_below (length xs) h)
  take-all (suc n) (x ∷ xs) h = ap (λ ys. x ∷ ys) (take-all n xs (below (length xs) n h))

  length-drop : (n : ℕ) (xs : List A) → length (drop n xs) ≡ length xs - n
  length-drop zero xs = omega arith
  length-drop (suc n) [] = omega arith
  length-drop (suc n) (x ∷ xs) = omega (arith, length-drop n xs)

-- Past the last page there is nothing.
last_page-covers :
    (total limit page : ℕ) → 0 < limit → (total + limit - 1) / limit ≤ page → total ≤ page * limit
last_page-covers total limit page l h = omega (
  arith,
  div-add-mod' (total + limit - 1) limit,
  mod-lt (total + limit - 1) l,
  mul-le-mul_right limit h,
)

one_more : (page : ℕ) → 1 ≤ page → page ≡ suc (page - 1)
one_more page h = omega arith

back_again : (page : ℕ) → page + 1 - 1 ≡ page
back_again page = omega arith

next_row : (page limit : ℕ) → 1 ≤ page → (page - 1) * limit + limit ≡ page * limit
next_row page limit h = sym (ap (λ n. n * limit) (one_more page h) ∙ suc-mul (page - 1) limit)

no_rows : (limit : ℕ) → (1 - 1) * limit ≡ 0
no_rows limit = omega arith

next_enabled-lt : (page pages : ℕ) → next_enabled page pages ≡ true → page < pages
unfolding next_enabled
next_enabled-lt page pages h = ground arith

next_enabled-le : (page pages : ℕ) → 1 ≤ page → next_enabled page pages ≡ false → pages ≤ page
unfolding next_enabled
next_enabled-le page pages l h = ground arith

module _ {A : Type 0} (fetch : ℕ → ℕ → List A) (items : List A)
    (fetched : (limit offset : ℕ) → fetch limit offset ≡ take limit (drop offset items)) where
  last-covers :
      (page limit : ℕ)
      → 1 ≤ page
      → length items ≤ page * limit
      → fetch limit ((page - 1) * limit) ++ [] ≡ drop ((page - 1) * limit) items
  last-covers page limit p h =
      ap (λ xs. xs ++ []) (fetched limit ((page - 1) * limit))
      ∙ take-all limit (drop ((page - 1) * limit) items)
          (omega (arith, length-drop ((page - 1) * limit) items, next_row page limit p, h))

  page-covers :
      (page limit : ℕ)
      → 1 ≤ page
      → fetch limit ((page - 1) * limit) ++ drop ((page + 1 - 1) * limit) items
        ≡ drop ((page - 1) * limit) items
  page-covers page limit p =
      ap (λ xs. xs ++ drop ((page + 1 - 1) * limit) items) (fetched limit ((page - 1) * limit))
      ∙ ap (λ n. take limit (drop ((page - 1) * limit) items) ++ drop n items)
          (ap (λ n. n * limit) (back_again page) ∙ sym (next_row page limit p))
      ∙ ap (λ ys. take limit (drop ((page - 1) * limit) items) ++ ys)
          (sym (drop-drop limit ((page - 1) * limit) items))
      ∙ take-drop limit (drop ((page - 1) * limit) items)

  walk-covers :
      (clicks page limit : ℕ)
      → 0 < limit
      → 1 ≤ page
      → 1 ≤ clicks
      → total_pages (length items) (record { page = page; limit = limit }) + 1 ≤ clicks + page
      → (pages : List (List A)) × ((walk fetch
              (length items)
              clicks
              (record { page = page; limit = limit })
            ≡ some pages)
          × (concat pages ≡ drop ((page - 1) * limit) items))
  unfolding walk set_page offset total_pages
  walk-covers zero page limit l p c t = absurd (none_below 0 c)
  walk-covers (suc clicks) page limit l p c t =
      elim (Bool-cases (next_enabled page ((length items + limit - 1) / limit))) [
        | inl e ↦
            let more : page < (length items + limit - 1) / limit =
              next_enabled-lt page ((length items + limit - 1) / limit) e in
            let enough : (length items + limit - 1) / limit + 1 ≤ suc clicks + page = t in
            let r =
              walk-covers clicks (page + 1) limit l (omega arith) (omega (arith, more, enough))
                (omega (arith, enough)) in
            (
              fetch limit ((page - 1) * limit) ∷ r.0,
              (
                rw (e, r.1.0) refl,
                ap (λ ys. fetch limit ((page - 1) * limit) ++ ys) r.1.1 ∙ page-covers page limit p,
              ),
            )
        | inr e ↦ (
          fetch limit ((page - 1) * limit) ∷ [],
          (
            rw e refl,
            last-covers page limit p (
                last_page-covers (length items) limit page l
                  (next_enabled-le page ((length items + limit - 1) / limit) p e)),
          ),
        )
      ]

  -- Where the service gives a limit of the items from an offset on, and the limit is not zero: who
  -- starts at the first page and clicks the button for the next page for as long as it is enabled
  -- comes to an end within as many clicks as there are pages (one, if there are no items); and the
  -- pages seen hold all of the items, in their order, each once.
  pub walk_ends :
      (clicks limit : ℕ)
      → 0 < limit
      → 1 ≤ clicks
      → total_pages (length items) (initial limit) ≤ clicks
      → (pages : List (List A)) × ((walk fetch (length items) clicks (initial limit) ≡ some pages)
          × (concat pages ≡ items))
  walk_ends clicks limit l c t =
      let seen = walk-covers clicks 1 limit l (omega arith) c (omega (arith, t)) in
      (seen.0, (seen.1.0, seen.1.1 ∙ ap (λ n. drop n items) (no_rows limit)))
