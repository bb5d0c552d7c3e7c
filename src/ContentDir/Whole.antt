-- ===== src/ContentDir/Whole.antt =====
-- djmount/content_dir.c: what a request returns, and what `BrowseOrSearchAll` gathers.
use djmount.Base.{
  ℕ, zero, suc, ◌+◌, ◌-◌, true, false, not, ◌||◌, ◌≡◌, refl, sym, ap, ◌∙◌, subst, ◌⊎◌, inl, inr,
  List, [], ◌++◌, append-nil, append_assoc, Option, none, some,
}
use djmount.Base.Lists.{Bytes, length}
use djmount.Base.Tests.{ltb, ◌==◌, if◌then◌else◌, Bool-cases, Option-cases}
use djmount.Base.Int.{ℤ, pos}
use djmount.Base.Text.{codes}
use djmount.Strings.{to_integer}
use djmount.DidlObject.{DidlObject}
use djmount.ContentDir.{
  Criteria, Server, Answer, is_success, is_browse, to_count, arguments, failed, bad_response,
  read_result, read_answer, browse_or_search_action, retry_loop, browse_or_search_all,
}
use djmount.ContentDir.Action.{created, append_objects_lem}

module _ {W D : Type 0} (s : Server W D) where
  -- A request that failed: there is no object more, and both numbers are 0.
  abbrev pub IsFailure : List DidlObject → Answer W → Type 0
  IsFailure objects a =
      (is_success a.rc ≡ false) × (a.objects ≡ objects) × (a.nb_matched ≡ 0) × (a.nb_returned ≡ 0)

  -- A request that is answered by the parsed document d: its containers come first, then its items, and their number
  -- counts.
  abbrev pub IsAnswer : D → List DidlObject → Answer W → Type 0
  IsAnswer d objects a =
      (is_success a.rc ≡ true)
      × (a.objects
          ≡ objects
            ++ (created (s.elements d (codes "container")) true
                ++ created (s.elements d (codes "item")) false))
      × (a.nb_returned
          ≡ length (s.elements d (codes "container")) + length (s.elements d (codes "item")))

  failed-IsFailure :
      (rc : ℤ) (objects : List DidlObject) (w : W)
      → is_success rc ≡ false
      → IsFailure objects (failed s rc objects w)
  failed-IsFailure rc objects w e = (e, refl, refl, refl)

  no_success : (rc : ℤ) → is_success (if is_success rc then bad_response else rc) ≡ false
  no_success rc = elim (Bool-cases (is_success rc)) [ inl ok ↦ rw ok refl | inr bad ↦ rw bad bad ]

  pub read_result-IsAnswer :
      (nb_matched : ℕ) (d : D) (objects : List DidlObject) (w : W)
      → IsAnswer d objects (read_result s nb_matched d objects w)
  unfolding read_result
  read_result-IsAnswer nb_matched d objects w = (
    refl,
    append_objects_lem (s.elements d (codes "container")) (s.elements d (codes "item")) objects,
    refl,
  )

  pub read_result-matched :
      (n : ℕ) (d : D) (objects : List DidlObject) (w : W)
      → (read_result s n d objects w).nb_matched ≡ n
  unfolding read_result
  read_result-matched n d objects w = refl

  pub read_answer_lem :
      (r : (ℤ × Option D) × W) (objects : List DidlObject)
      → IsFailure objects (read_answer s r objects)
        ⊎ ((doc : D) × (text : Bytes) × (d : D) × (r.0.1 ≡ some doc)
            × (is_success (r.0.0) ≡ true)
            × (s.first_value doc (codes "Result") ≡ some text)
            × (s.parse_buffer text ≡ some d)
            × IsAnswer d objects (read_answer s r objects)
            × ((read_answer s r objects).nb_matched
                ≡ to_count (to_integer (s.first_value doc (codes "TotalMatches")) (pos 0))))
  unfolding read_answer
  read_answer_lem ((rc, none), w) objects =
      inl (failed-IsFailure (if is_success rc then bad_response else rc) objects w (no_success rc))
  read_answer_lem ((rc, some doc), w) objects = elim (Bool-cases (is_success rc)) [
    | inr bad ↦ inl (rw (bad, read_answer) (failed-IsFailure rc objects w bad))
    | inl ok ↦ elim (Option-cases (s.first_value doc (codes "Result"))) [
      | inl missing ↦ inl (rw (ok, missing, read_answer) (refl, refl, refl, refl))
      | inr (text, there) ↦ elim (Option-cases (s.parse_buffer text)) [
        | inl bad ↦ inl (rw (ok, there, bad, read_answer) (refl, refl, refl, refl))
        | inr (d, parsed) ↦
            let matched =
              to_count (to_integer (s.first_value doc (codes "TotalMatches")) (pos 0)) in
            let run : read_answer s ((rc, some doc), w) objects
                ≡ read_result s matched d objects w =
              rw (ok, there, parsed, read_answer) refl in
            inr (
              doc,
              text,
              d,
              refl,
              ok,
              there,
              parsed,
              subst (IsAnswer d objects) (sym run) (read_result-IsAnswer matched d objects w),
              ap (λ a. Answer.nb_matched a) run ∙ read_result-matched matched d objects w,
            )
      ]
    ]
  ]

  -- The objects that are there stay, before those that a request adds.
  abbrev Extends : List DidlObject → List DidlObject → Type 0
  Extends os os' = (more : List DidlObject) × (os' ≡ os ++ more)

  Extends-refl : (os : List DidlObject) → Extends os os
  Extends-refl os = ([], sym (append-nil os))

  Extends-trans : (a b c : List DidlObject) → Extends a b → Extends b c → Extends a c
  Extends-trans a b c (x, e) (y, e') = (x ++ y, e' ∙ ap (λ l. l ++ y) e ∙ append_assoc a x y)

  -- What the service gives for a request.
  abbrev pub response : Bytes → Criteria → ℕ → ℕ → W → (ℤ × Option D) × W
  response id c i n w =
      s.send_action (if is_browse c then codes "Browse" else codes "Search") (arguments s id c i n)
        w

  read_answer-Extends :
      (r : (ℤ × Option D) × W) (objects : List DidlObject)
      → Extends objects (Answer.objects (read_answer s r objects))
  read_answer-Extends r objects = elim (read_answer_lem r objects) [
    | inl (bad, same, m, n) ↦ ([], same ∙ sym (append-nil objects))
    | inr (doc, text, d, e, ok, there, parsed, (ok', added, n), m) ↦ (
      created (s.elements d (codes "container")) true
          ++ created (s.elements d (codes "item")) false,
      added,
    )
  ]

  action-Extends :
      (id : Bytes) (c : Criteria) (i n : ℕ) (objects : List DidlObject) (w : W)
      → Extends objects (Answer.objects (browse_or_search_action s id c i n objects w))
  unfolding browse_or_search_action
  action-Extends id c i n objects w = read_answer-Extends (response id c i n w) objects

  retry_loop-Extends :
      (id : Bytes) (c : Criteria) (retries nb_matched : ℕ) (objects : List DidlObject) (w : W)
      → Extends objects (retry_loop s id c retries nb_matched objects w).0
  unfolding retry_loop
  retry_loop-Extends id c zero nb_matched objects w = Extends-refl objects
  retry_loop-Extends id c (suc retries) nb_matched objects w =
      let size = length objects in
      let a = browse_or_search_action s id c size (nb_matched - size) objects w in
      let first : Extends objects a.objects =
        action-Extends id c size (nb_matched - size) objects w in
      let rest = retry_loop-Extends id c retries a.nb_matched a.objects a.world in
      elim (Bool-cases (ltb size nb_matched)) [
        | inr full ↦ rw (full, retry_loop) (Extends-refl objects)
        | inl more ↦ elim (Bool-cases (not (is_success a.rc) || a.nb_returned == 0)) [
          | inl stop ↦ rw (more, stop, retry_loop) first
          | inr on ↦ rw (more, on, retry_loop) (Extends-trans objects a.objects _ first rest)
        ]
      ]

  -- `BrowseOrSearchAll` returns NULL just where its first request, for all objects, fails; else the children are the
  -- objects of the first answer and what the retries add after them, and no failure of a retry takes them away.
  pub browse_or_search_all_lem :
      (id : Bytes) (c : Criteria) (w : W)
      → ((is_success (Answer.rc (browse_or_search_action s id c 0 0 [] w)) ≡ false)
          × ((browse_or_search_all s id c w).0 ≡ none))
        ⊎ ((os : List DidlObject) × (is_success
                (Answer.rc (browse_or_search_action s id c 0 0 [] w))
              ≡ true)
            × ((browse_or_search_all s id c w).0 ≡ some os)
            × ((more : List DidlObject) × (os
                  ≡ Answer.objects (browse_or_search_action s id c 0 0 [] w) ++ more)))
  unfolding browse_or_search_all
  browse_or_search_all_lem id c w =
      let a = browse_or_search_action s id c 0 0 [] w in
      elim (Bool-cases (is_success a.rc)) [
        | inl ok ↦ inr (
          (retry_loop s id c 2 a.nb_matched a.objects a.world).0,
          ok,
          rw (ok, browse_or_search_all) refl,
          retry_loop-Extends id c 2 a.nb_matched a.objects a.world,
        )
        | inr bad ↦ inl (bad, rw (bad, browse_or_search_all) refl)
      ]
