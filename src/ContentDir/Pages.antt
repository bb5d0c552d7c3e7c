-- ===== src/ContentDir/Pages.antt =====
-- djmount/content_dir.c: what `BrowseOrSearchAll` gets from a service that answers in pages.
use djmount.Base.{
  ℕ, zero, suc, ◌+◌, ◌-◌, ◌*◌, ◌≤◌, ◌<◌, min, true, false, ◌≡◌, refl, sym, ap, ◌∙◌, subst, inl, inr,
  List, [], ◌∷◌, ◌++◌, some, arith,
}
use djmount.Base.Lists.{
  Bytes, length, take, drop, length-take, length-drop, take-all, take-nil, take-take-drop,
}
use djmount.Base.Tests.{ltb, ◌==◌, if◌then◌else◌, Bool-cases}
use djmount.Base.Int.{pos}
use djmount.Base.Text.{codes}
use djmount.Strings.{to_integer}
use djmount.DidlObject.{DidlObject}
use djmount.ContentDir.{
  Criteria, Server, Answer, is_success, to_count, read_result, read_answer, browse_or_search_action,
  retry_loop, browse_or_search_all,
}
use djmount.ContentDir.Action.{created}
use djmount.ContentDir.Whole.{response, read_result-IsAnswer, read_result-matched}

-- How many of the objects that are left a page has: as many as the request asks for, where 0 asks for all, and at most
-- the page's size.
abbrev pub page_length : ℕ → ℕ → ℕ
page_length size requested_count = if requested_count == 0 then size else min size requested_count

-- A service with the children os of an object, each of which makes an object, that gives at most `size` of them in an
-- answer. It answers a request for them, in every state, with a document `page start count` of the objects from the
-- start on; the document tells how many children there are.
pub record Serves {W D : Type 0} (s : Server W D) (id : Bytes) (c : Criteria) (os : List DidlObject)
    (size : ℕ) : Type 0 where
  pub page : ℕ → ℕ → D
  pub result : ℕ → ℕ → Bytes
  pub didl : ℕ → ℕ → D
  pub answers :
      (start count : ℕ) (w : W)
      → start ≤ length os
      → count ≤ length os
      → (response s id c start count w).0 ≡ (pos 0, some (page start count))
  pub matches :
      (start count : ℕ)
      → to_count (to_integer (s.first_value (page start count) (codes "TotalMatches")) (pos 0))
        ≡ length os
  pub results :
      (start count : ℕ)
      → s.first_value (page start count) (codes "Result") ≡ some (result start count)
  pub parses : (start count : ℕ) → s.parse_buffer (result start count) ≡ some (didl start count)
  pub children :
      (start count : ℕ)
      → start ≤ length os
      → created (s.elements (didl start count) (codes "container")) true
          ++ created (s.elements (didl start count) (codes "item")) false
        ≡ take (page_length size count) (drop start os)
  pub numbers :
      (start count : ℕ)
      → start ≤ length os
      → length (s.elements (didl start count) (codes "container"))
          + length (s.elements (didl start count) (codes "item"))
        ≡ length (take (page_length size count) (drop start os))

take-min {ℓ} : {A : Type ℓ} (n : ℕ) (xs : List A) → take (min n (length xs)) xs ≡ take n xs
take-min zero xs = let none_taken : min 0 (length xs) ≡ 0 = omega arith in rw none_taken refl
take-min (suc n) [] = take-nil (min (suc n) 0)
take-min (suc n) (x ∷ xs) =
    let e : min (suc n) (suc (length xs)) ≡ suc (min n (length xs)) = omega arith in
    rw e (ap (λ l. x ∷ l) (take-min n xs))

module _ {W D : Type 0} (s : Server W D) (id : Bytes) (c : Criteria) (os : List DidlObject)
    (size : ℕ) (some_size : 0 < size) (serves : Serves s id c os size) where
  -- What a request adds.
  abbrev Adds : ℕ → ℕ → List DidlObject → Answer W → Type 0
  Adds start count before a =
      (is_success a.rc ≡ true)
      × (a.objects ≡ before ++ take (page_length size count) (drop start os))
      × (a.nb_returned ≡ length (take (page_length size count) (drop start os)))
      × (a.nb_matched ≡ length os)

  action-Adds :
      (start count : ℕ) (before : List DidlObject) (w : W)
      → start ≤ length os
      → count ≤ length os
      → Adds start count before (browse_or_search_action s id c start count before w)
  unfolding browse_or_search_action
  action-Adds start count before w low few =
      let r = response s id c start count w in
      let doc = serves.page start count in
      let d = serves.didl start count in
      let matched = to_count (to_integer (s.first_value doc (codes "TotalMatches")) (pos 0)) in
      let whole : r ≡ ((pos 0, some doc), r.1) =
        ap (λ x. (x, r.1)) (serves.answers start count w low few) in
      let read : read_answer s ((pos 0, some doc), r.1) before
          ≡ read_result s matched d before (r.1) =
        rw (serves.results start count, serves.parses start count, read_answer) refl in
      let run = ap (λ x. read_answer s x before) whole ∙ read in
      let (ok, added, number) = read_result-IsAnswer s matched d before (r.1) in
      let added' = added ∙ ap (λ l. before ++ l) (serves.children start count low) in
      let number' = number ∙ serves.numbers start count low in
      let total = read_result-matched s matched d before (r.1) ∙ serves.matches start count in
      subst (Adds start count before) (sym run) (ok, added', number', total)

  -- What is left of the children after the first k, where a request asks for all of it.
  abbrev left : ℕ → List DidlObject
  left k = take (page_length size (length os - k)) (drop k os)

  left_page : (k : ℕ) → k < length os → left k ≡ take size (drop k os)
  left_page k h = elim (Bool-cases (length os - k == 0)) [
    | inl none_left ↦ absurd (ground arith)
    | inr more ↦ rw (more, sym (length-drop k os)) (take-min size (drop k os))
  ]

  -- The loop, after the first k objects: it gets a page in each retry.
  retry_loop-pages :
      (retries k : ℕ) (w : W)
      → (retry_loop s id c retries (length os) (take k os) w).0 ≡ take (k + retries * size) os
  unfolding retry_loop
  retry_loop-pages zero k w = ap (λ n. take n os) (omega arith)
  retry_loop-pages (suc retries) k w =
      let n = length (take k os) in
      let is_min : n ≡ min k (length os) = length-take k os in
      let a = browse_or_search_action s id c n (length os - n) (take k os) w in
      let (ok, added, number, total) =
        action-Adds n (length os - n) (take k os) w (omega arith) (omega arith) in
      elim (Bool-cases (ltb n (length os))) [
        | inr full ↦
            let all : length os ≤ k = ground arith in
            rw (full, retry_loop)
              (take-all k os all ∙ sym (take-all (k + suc retries * size) os (grind arith)))
        | inl more ↦
            let below : k < length os = ground arith in
            let same : n ≡ k = omega arith in
            let page : left n ≡ take size (drop k os) = ap left same ∙ left_page k below in
            let more_objects : a.objects ≡ take (k + size) os =
              added ∙ ap (λ l. take k os ++ l) page ∙ take-take-drop k size os in
            let returned : a.nb_returned ≡ min size (length os - k) =
              number
              ∙ ap (λ l. length l) page
              ∙ length-take size (drop k os)
              ∙ ap (min size) (length-drop k os) in
            let positive : (a.nb_returned == 0) ≡ false = ground arith in
            let rest = retry_loop-pages retries (k + size) a.world in
            let rest' : (retry_loop s id c retries a.nb_matched a.objects a.world).0
                ≡ take (k + size + retries * size) os =
              rw (total, more_objects) rest in
            let sum : k + size + retries * size ≡ k + suc retries * size = grind arith in
            rw (more, ok, positive, retry_loop) (rest' ∙ ap (λ m. take m os) sum)
      ]

  -- From a service that gives its children in pages of a size, `BrowseOrSearchAll` gets those of the first three pages:
  -- all of them where there are no more.
  pub browse_or_search_all-pages :
      (w : W) → (browse_or_search_all s id c w).0 ≡ some (take (3 * size) os)
  unfolding browse_or_search_all
  browse_or_search_all-pages w =
      let a = browse_or_search_action s id c 0 0 [] w in
      let (ok, added, number, total) = action-Adds 0 0 [] w (omega arith) (omega arith) in
      let first : a.objects ≡ take size os = added in
      let rest = retry_loop-pages 2 size a.world in
      let run : (retry_loop s id c 2 a.nb_matched a.objects a.world).0 ≡ take (size + 2 * size) os =
        rw (total, first) rest in
      let sum : size + 2 * size ≡ 3 * size = omega arith in
      rw (ok, browse_or_search_all) (ap some (run ∙ ap (λ m. take m os) sum))
