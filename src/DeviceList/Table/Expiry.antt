-- ===== src/DeviceList/Table/Expiry.antt =====
-- djmount/device_list.c: the thread that looks for expired devices.
use djmount.Base.{
  ℕ, zero, suc, ◌+◌, ◌*◌, ◌<◌, false, ◌≡◌, refl, sym, ap, ◌∙◌, subst, inl, inr, none, some, not,
  arith,
}
use djmount.Base.Lists.{Bytes}
use djmount.Base.Tests.{ltb, if◌then◌else◌, Bool-cases}
use djmount.Base.Int.{pos, sub_ℕ}
use djmount.DeviceList.{DeviceNode, State, Outside, int_sub, at_most_neg}
use djmount.DeviceList.Changes.{verify_timeouts}
use djmount.DeviceList.Mirror.Changes.{IsMirrored, verify_timeouts-IsMirrored}
use djmount.DeviceList.Table.{device_of, round, verify_nodes-round}

-- `CHECK_SUBSCRIPTIONS_TIMEOUT`
abbrev pub check_subscriptions_timeout : ℕ
check_subscriptions_timeout = 10

-- The first k rounds of `CheckSubscriptionsLoop`, with no other thread between them.
pub check_subscriptions_loop : {W : Type 0} → Outside W → ℕ → State W → State W
check_subscriptions_loop o zero s = s
check_subscriptions_loop o (suc k) s =
    verify_timeouts o check_subscriptions_timeout (check_subscriptions_loop o k s)

-- A difference that has not gone below -incr is computed exactly.
int_sub-sub_ℕ : (e m : ℕ) → m < e + 10 → int_sub (sub_ℕ e m) 10 ≡ sub_ℕ e (m + 10)
int_sub-sub_ℕ e m h = ground arith

at_most_neg-sub_ℕ : (e m : ℕ) → at_most_neg (sub_ℕ e (m + 10)) 10 ≡ not (ltb m e)
at_most_neg-sub_ℕ e m = ground arith

-- A device whose advertisement expires in e seconds, after m of them.
abbrev expiring : DeviceNode → ℕ → ℕ → DeviceNode
expiring n e m = record n { expires = sub_ℕ e m }

round-expiring :
    (n : DeviceNode) (e m : ℕ)
    → m < e + 10
    → round 10 (some (expiring n e m)) ≡ (if ltb m e then some (expiring n e (m + 10)) else none)
round-expiring n e m h = elim (Bool-cases (ltb m e)) [
  | inl alive ↦ rw (int_sub-sub_ℕ e m h, at_most_neg-sub_ℕ e m, alive) refl
  | inr dead ↦ rw (int_sub-sub_ℕ e m h, at_most_neg-sub_ℕ e m, dead) refl
]

module _ {W : Type 0} (o : Outside W) where
  check_subscriptions_loop-IsMirrored :
      (k : ℕ) (s : State W) → IsMirrored s → IsMirrored (check_subscriptions_loop o k s)
  unfolding check_subscriptions_loop
  check_subscriptions_loop-IsMirrored zero s h = h
  check_subscriptions_loop-IsMirrored (suc k) s h =
      verify_timeouts-IsMirrored o 10 (check_subscriptions_loop o k s)
        (check_subscriptions_loop-IsMirrored k s h)

  -- One round, as the table sees it.
  verify_timeouts-round :
      (s : State W) (id : Bytes)
      → IsMirrored s
      → device_of (verify_timeouts o 10 s).global_device_list id
        ≡ round 10 (device_of s.global_device_list id)
  unfolding verify_timeouts
  verify_timeouts-round s id h = verify_nodes-round o 10 s.global_device_list s h.0 id

  -- A device whose advertisement expires in e seconds, and which no thread refreshes, is still in the list after
  -- k + 1 rounds of 10 seconds just where 10 * k seconds are less than e: its expiration has gone down by 10 in each
  -- round, and at the latest it is removed in the second round that finds it expired.
  pub check_subscriptions_loop_lem :
      (k : ℕ) (s : State W) (id : Bytes) (n : DeviceNode) (e : ℕ)
      → IsMirrored s
      → device_of s.global_device_list id ≡ some n
      → n.expires ≡ pos e
      → device_of (check_subscriptions_loop o (suc k) s).global_device_list id
        ≡ (if ltb (10 * k) e then some (record n { expires = sub_ℕ e (10 * suc k) }) else none)
  unfolding check_subscriptions_loop
  check_subscriptions_loop_lem zero s id n e h at expires =
      let start : sub_ℕ e 0 ≡ pos e = ground arith in
      let same : some n ≡ some (expiring n e 0) =
        ap (λ x. some (record n { expires = x })) (expires ∙ sym start) in
      verify_timeouts-round s id h ∙ ap (round 10) (at ∙ same) ∙ round-expiring n e 0 (omega arith)
  check_subscriptions_loop_lem (suc k) s id n e h at expires =
      let before = check_subscriptions_loop o (suc k) s in
      let last =
        verify_timeouts-round before id (check_subscriptions_loop-IsMirrored (suc k) s h) in
      let rest = check_subscriptions_loop_lem k s id n e h at expires in
      elim (Bool-cases (ltb (10 * k) e)) [
        | inl alive ↦
            let now : device_of before.global_device_list id ≡ some (expiring n e (10 * suc k)) =
              rest ∙ rw alive refl in
            let sum : 10 * suc k + 10 ≡ 10 * suc (suc k) = omega arith in
            last
            ∙ ap (round 10) now
            ∙ subst
                (λ m.
                  round 10 (some (expiring n e (10 * suc k)))
                  ≡ (if ltb (10 * suc k) e then some (expiring n e m) else none))
                sum (round-expiring n e (10 * suc k) (ground arith))
        | inr dead ↦
            let now : device_of before.global_device_list id ≡ none = rest ∙ rw dead refl in
            let later : ltb (10 * suc k) e ≡ false = ground arith in
            last ∙ ap (round 10) now ∙ rw later refl
      ]
