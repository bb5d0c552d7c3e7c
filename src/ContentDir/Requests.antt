-- ===== src/ContentDir/Requests.antt =====
-- djmount/content_dir.c: how many requests `BrowseOrSearchAll` sends.
use djmount.Base.{
  ℕ, zero, suc, ◌+◌, ◌-◌, ◌≤◌, not, ◌||◌, ◌≡◌, refl, ap, ◌∙◌, inl, inr, List, [], Option, none,
  some, arith,
}
use djmount.Base.Lists.{Bytes, length}
use djmount.Base.Tests.{ltb, le→ltb, ◌==◌, Bool-cases, Option-cases}
use djmount.Base.Int.{ℤ}
use djmount.Base.Text.{codes}
use djmount.DidlObject.{DidlObject}
use djmount.ContentDir.{
  Criteria, Server, Answer, is_success, read_answer, browse_or_search_action, retry_loop,
  browse_or_search_all, read_result,
}
use djmount.ContentDir.Whole.{response}

-- A count of the actions that were sent to the service, which it keeps itself.
module _ {W D : Type 0} (s : Server W D) (sent : W → ℕ)
    (counts : (action : Bytes) (arguments : List (Bytes × Bytes)) (w : W)
      → sent (s.send_action action arguments w).1 ≡ suc (sent w)) where
  read_answer-world :
      (r : (ℤ × Option D) × W) (objects : List DidlObject) → (read_answer s r objects).world ≡ r.1
  unfolding read_answer read_result
  read_answer-world ((rc, none), w) objects = refl
  read_answer-world ((rc, some doc), w) objects = elim (Bool-cases (is_success rc)) [
    | inr bad ↦ rw (bad, read_answer) refl
    | inl ok ↦ elim (Option-cases (s.first_value doc (codes "Result"))) [
      | inl missing ↦ rw (ok, missing, read_answer) refl
      | inr (text, there) ↦ elim (Option-cases (s.parse_buffer text)) [
        | inl bad ↦ rw (ok, there, bad, read_answer) refl
        | inr (d, parsed) ↦ rw (ok, there, parsed, read_answer) refl
      ]
    ]
  ]

  action-sent :
      (id : Bytes) (c : Criteria) (i n : ℕ) (objects : List DidlObject) (w : W)
      → sent (Answer.world (browse_or_search_action s id c i n objects w)) ≡ suc (sent w)
  unfolding browse_or_search_action
  action-sent id c i n objects w =
      ap sent (read_answer-world (response s id c i n w) objects) ∙ counts _ _ w

  retry_loop-sent :
      (id : Bytes) (c : Criteria) (retries nb_matched : ℕ) (objects : List DidlObject) (w : W)
      → sent (retry_loop s id c retries nb_matched objects w).1 ≤ sent w + retries
  unfolding retry_loop
  retry_loop-sent id c zero nb_matched objects w = omega arith
  retry_loop-sent id c (suc retries) nb_matched objects w =
      let size = length objects in
      let a = browse_or_search_action s id c size (nb_matched - size) objects w in
      let once = action-sent id c size (nb_matched - size) objects w in
      let rest = retry_loop-sent id c retries a.nb_matched a.objects a.world in
      elim (Bool-cases (ltb size nb_matched)) [
        | inr full ↦ rw (full, retry_loop) (omega arith)
        | inl more ↦ elim (Bool-cases (not (is_success a.rc) || a.nb_returned == 0)) [
          | inl stop ↦ rw (more, stop, retry_loop) (omega arith)
          | inr on ↦ rw (more, on, retry_loop) (omega arith)
        ]
      ]

  retry_loop-grows :
      (id : Bytes) (c : Criteria) (retries nb_matched : ℕ) (objects : List DidlObject) (w : W)
      → sent w ≤ sent (retry_loop s id c retries nb_matched objects w).1
  unfolding retry_loop
  retry_loop-grows id c zero nb_matched objects w = omega arith
  retry_loop-grows id c (suc retries) nb_matched objects w =
      let size = length objects in
      let a = browse_or_search_action s id c size (nb_matched - size) objects w in
      let once = action-sent id c size (nb_matched - size) objects w in
      let rest = retry_loop-grows id c retries a.nb_matched a.objects a.world in
      elim (Bool-cases (ltb size nb_matched)) [
        | inr full ↦ rw (full, retry_loop) (omega arith)
        | inl more ↦ elim (Bool-cases (not (is_success a.rc) || a.nb_returned == 0)) [
          | inl stop ↦ rw (more, stop, retry_loop) (omega arith)
          | inr on ↦ rw (more, on, retry_loop) (omega arith)
        ]
      ]

  retry_loop-full :
      (id : Bytes) (c : Criteria) (retries nb_matched : ℕ) (objects : List DidlObject) (w : W)
      → nb_matched ≤ length objects
      → retry_loop s id c retries nb_matched objects w ≡ (objects, w)
  unfolding retry_loop
  retry_loop-full id c zero nb_matched objects w h = refl
  retry_loop-full id c (suc retries) nb_matched objects w h =
      rw (le→ltb (length objects) nb_matched h, retry_loop) refl

  -- Browsing or searching everything sends one request at least and three at most, whatever the service answers.
  pub browse_or_search_all-sent :
      (id : Bytes) (c : Criteria) (w : W)
      → (suc (sent w) ≤ sent (browse_or_search_all s id c w).1)
        × (sent (browse_or_search_all s id c w).1 ≤ sent w + 3)
  unfolding browse_or_search_all
  browse_or_search_all-sent id c w =
      let a = browse_or_search_action s id c 0 0 [] w in
      let once = action-sent id c 0 0 [] w in
      let most = retry_loop-sent id c 2 a.nb_matched a.objects a.world in
      let least = retry_loop-grows id c 2 a.nb_matched a.objects a.world in
      elim (Bool-cases (is_success a.rc)) [
        | inr bad ↦ rw (bad, browse_or_search_all) (omega arith, omega arith)
        | inl ok ↦ rw (ok, browse_or_search_all) (omega arith, omega arith)
      ]

  -- It sends only one where that gives as many objects as the service says that there are.
  pub browse_or_search_all-once :
      (id : Bytes) (c : Criteria) (w : W)
      → Answer.nb_matched (browse_or_search_action s id c 0 0 [] w)
        ≤ length (Answer.objects (browse_or_search_action s id c 0 0 [] w))
      → sent (browse_or_search_all s id c w).1 ≡ suc (sent w)
  unfolding browse_or_search_all
  browse_or_search_all-once id c w h =
      let a = browse_or_search_action s id c 0 0 [] w in
      let once = action-sent id c 0 0 [] w in
      let full = retry_loop-full id c 2 a.nb_matched a.objects a.world h in
      elim (Bool-cases (is_success a.rc)) [
        | inr bad ↦ rw (bad, browse_or_search_all) once
        | inl ok ↦ rw (ok, browse_or_search_all) (ap (λ r. sent (r.1)) full ∙ once)
      ]
