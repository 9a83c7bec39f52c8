-- ===== src/GrantListing/Paging.antt =====
-- What a page holds, and what a client gets that follows the cursors.
use go_permissions.Base.{
  ℕ, zero, suc, ◌+◌, ◌-◌, ◌≤◌, ◌<◌, ◌≡◌, ◌≢◌, ◌∙◌, refl, sym, ap, String, false, List, ◌++◌, Option,
  none, some, arith, leb, ltb, if◌then◌else◌, ◌==◌, filter, length, take, drop, take_all,
  length-take_le, length-drop, take-append-drop, drop-drop, drop_past, Bool-cases, inl, inr, eq_iff,
  text_cases,
}
use go_permissions.Base.Results.{ok, err, Result-cases}
use go_permissions.Types.{Grant, GrantQuery, GrantQueryResult, ℤ, pos, negsuc, itoa}
use go_permissions.Types.Numbers.{max_int, add_int}
use go_permissions.Types.Numbers.RoundTrip.{atoi-itoa, itoa_full}
use go_permissions.GrantListing.{
  matches_query, offset_of, limit_of, cut, below, slice_grants, page, list_grants,
}

pub limit_of_bounds : (l : ℤ) → (1 ≤ limit_of l) × (limit_of l ≤ 1000)
unfolding limit_of
limit_of_bounds (negsuc n) = (omega arith, omega arith)
limit_of_bounds (pos n) = (ground arith, ground arith)

take_short : (F : List Grant) (o n : ℕ) → length F ≤ o + n → take n (drop o F) ≡ drop o F
take_short F o n h = take_all n (drop o F) (omega (arith, length-drop o F))

-- the page at an offset
abbrev pub page_at : List Grant → ℕ → ℕ → GrantQueryResult
page_at F o n = record {
  grants = take n (drop o F);
  next_cursor = if ltb (o + n) (length F) then itoa (pos (o + n)) else "";
  total_count = length F;
}

pub page_lem :
    (F : List Grant) (q : GrantQuery) (o : ℕ)
    → offset_of q.cursor ≡ pos o
    → o + limit_of q.limit ≤ max_int
    → page F q ≡ ok (page_at F o (limit_of q.limit))
unfolding page add_int cut below slice_grants
page_lem F q o e fits =
    let n = limit_of q.limit in
    let some_room = limit_of_bounds q.limit in
    elim (Bool-cases (ltb o (length F))) [
      | inr past ↦ ground (arith, drop_past o F, take_short F o n)
      | inl inside ↦ elim (Bool-cases (ltb (length F) (o + n))) [
        | inl last ↦ ground (arith, take_short F o n, take_short F o (length F - o))
        | inr more ↦
            let width : o + n - o ≡ n = omega arith in
            ground (arith, ap (λ k. take k (drop o F)) width)
      ]
    ]

sliced_le :
    (F : List Grant) (offset : ℤ) (n : ℕ) (gs : List Grant)
    → slice_grants F offset (cut (add_int offset n) (length F)) ≡ ok gs
    → length gs ≤ n
unfolding slice_grants cut add_int
sliced_le F (negsuc o) n gs h = absurd (ground arith)
sliced_le F (pos o) n gs h = elim (Bool-cases (leb (o + n) max_int)) [
  | inr wrapped ↦ absurd (ground arith)
  | inl fits ↦ elim (Bool-cases (ltb (length F) (o + n))) [
    | inl last ↦ ground (arith, length-take_le (length F - o) (drop o F))
    | inr more ↦ ground (arith, length-take_le (o + n - o) (drop o F))
  ]
]

-- A client that asks for page after page, at most `fuel` times; `none` when it gives up or meets an error.
unfoldable pub follow : ℕ → List Grant → GrantQuery → Option (List Grant)
follow zero grants q = none
follow (suc fuel) grants q = elim (list_grants grants q) [
  | err e ↦ none
  | ok r ↦
      if r.next_cursor == ""
      then some r.grants
      else elim (follow fuel grants (record q { cursor = r.next_cursor })) [
        | none ↦ none
        | some rest ↦ some (r.grants ++ rest)
      ]
]

-- the printed offset is read back
offset_of-itoa : (n : ℕ) → n ≤ max_int → offset_of (itoa (pos n)) ≡ pos n
unfolding offset_of
offset_of-itoa n fits = elim (text_cases (itoa (pos n)) "") [
  | inl blank ↦ absurd (itoa_full n blank)
  | inr full ↦ ground (arith, atoi-itoa n fits)
]

module _ (grants : List Grant) (q : GrantQuery) (fuel : ℕ) (r : GrantQueryResult)
    (listed : list_grants grants q ≡ ok r) where
  follow_last : r.next_cursor ≡ "" → follow (suc fuel) grants q ≡ some r.grants
  unfolding follow
  follow_last e = ground (arith, eq_iff r.next_cursor "")

  follow_more :
      (rest : List Grant)
      → (r.next_cursor == "") ≡ false
      → follow fuel grants (record q { cursor = r.next_cursor }) ≡ some rest
      → follow (suc fuel) grants q ≡ some (r.grants ++ rest)
  unfolding follow
  follow_more rest e later = ground arith

module _ (grants : List Grant) where
  abbrev found : GrantQuery → List Grant
  found q = filter (matches_query q) grants

  found_cursor : (q : GrantQuery) (c : String) → found (record q { cursor = c }) ≡ found q
  unfolding matches_query
  found_cursor q c = refl

  list_page :
      (q : GrantQuery) (o : ℕ)
      → offset_of q.cursor ≡ pos o
      → o + limit_of q.limit ≤ max_int
      → list_grants grants q ≡ ok (page_at (found q) o (limit_of q.limit))
  unfolding list_grants
  list_page q o e fits = page_lem (found q) q o e fits

  follow_from :
      (fuel o : ℕ) (q : GrantQuery) (F : List Grant)
      → found q ≡ F
      → offset_of q.cursor ≡ pos o
      → o ≤ length F
      → length F + 1000 ≤ max_int
      → length F - o < fuel
      → follow fuel grants q ≡ some (drop o F)
  follow_from zero o q F same e inside fits enough = absurd (omega arith)
  follow_from (suc fuel) o q F same e inside fits enough =
      let n = limit_of q.limit in
      let (at_least, at_most) = limit_of_bounds q.limit in
      let listed : list_grants grants q ≡ ok (page_at F o n) =
        rw same at (list_page q o e (omega arith)) in
      elim (Bool-cases (ltb (o + n) (length F))) [
        | inr last ↦
            follow_last grants q fuel (page_at F o n) listed (rw last refl)
            ∙ ap some (take_short F o n (ground arith))
        | inl more ↦
            let turned : (page_at F o n).next_cursor ≡ itoa (pos (o + n)) = rw more refl in
            let later =
              follow_from fuel (o + n) (record q { cursor = (page_at F o n).next_cursor }) F
                (found_cursor q (page_at F o n).next_cursor ∙ same)
                (rw turned (offset_of-itoa (o + n) (omega arith))) (ground arith) fits
                (ground arith) in
            follow_more grants q fuel (page_at F o n) listed (drop (o + n) F)
              (rw turned (test_of_ne (itoa (pos (o + n))) (itoa_full (o + n)))) later
            ∙ ap some (
                ap (λ rest. take n (drop o F) ++ rest) (sym (drop-drop n o (o + n) F refl))
                ∙ take-append-drop n (drop o F))
      ]
    where
      test_of_ne : (t : String) → t ≢ "" → (t == "") ≡ false
      test_of_ne t full = ground (arith, eq_iff t "")

  -- A client that starts without a cursor and follows the cursors gets every grant that the query accepts, once and in order,
  -- after at most one page more than there are such grants; if there are not nearly as many grants as an `int` counts.
  pub follow_all :
      (q : GrantQuery) (fuel : ℕ)
      → q.cursor ≡ ""
      → length (found q) < fuel
      → length (found q) + 1000 ≤ max_int
      → follow fuel grants q ≡ some (found q)
  unfolding offset_of
  follow_all q fuel front enough fits =
      follow_from fuel 0 q (found q) refl (rw front refl) (omega arith) fits (omega arith)

  -- No page of ListGrants, from whatever cursor and limit, is longer than 1000 grants or than the limit that holds.
  pub list_grants_bounds :
      (q : GrantQuery) (r : GrantQueryResult)
      → list_grants grants q ≡ ok r
      → (length r.grants ≤ limit_of q.limit) × (length r.grants ≤ 1000)
  unfolding list_grants page
  list_grants_bounds q r h =
      let F = found q in
      let short = sliced_le F (offset_of q.cursor) (limit_of q.limit) in
      let (_, at_most) = limit_of_bounds q.limit in
      let within : length r.grants ≤ limit_of q.limit =
        elim (Bool-cases (below (offset_of q.cursor) (length F))) [
          | inr past ↦ ground arith
          | inl inside ↦
              elim (Result-cases (
                slice_grants F (offset_of q.cursor)
                  (cut (add_int (offset_of q.cursor) (limit_of q.limit)) (length F)))) [
                    | inl (gs, good) ↦ ground (arith, short gs good)
                    | inr (x, bad) ↦ absurd (ground arith)
                  ]
        ] in
      (within, omega arith)
