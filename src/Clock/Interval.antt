-- ===== src/Clock/Interval.antt =====
-- bios/seabios/src/clock.c: how long the interval timer runs.
use coremu.Common.{
  ℕ, zero, suc, ◌-◌, ◌*◌, ◌/◌, ◌%◌, ◌^◌, ◌≤◌, ◌<◌, ◌≡◌, refl, ap, ◌∙◌, not, ◌&&◌, ltb, ◌==◌,
  if◌then◌else◌, if_true, if_false, Bool-cases, inl, inr, arith, bit_or,
}
use coremu.Clock.{
  Clock, any_of, usec_per_rtc, rws_wait_pending, release_rtc, clear_usertimer, finish_wait,
  periodic,
}

-- A number of periodic interrupts of the clock.
abbrev pub after_periods : ℕ → Clock → Clock
after_periods zero s = s
after_periods (suc n) s = after_periods n (periodic s)

abbrev left : ℕ → Clock → Clock
left time s = record s { user_wait_timeout = time }

period_runs :
    (s : Clock)
    → s.rtc_wait_flag ≡ 1
    → usec_per_rtc ≤ s.user_wait_timeout
    → periodic s ≡ left (s.user_wait_timeout - usec_per_rtc) s
unfolding periodic
period_runs s w l =
    if_false (s.rtc_wait_flag == 0) _ _ (ground (arith, w))
    ∙ if_false (ltb s.user_wait_timeout usec_per_rtc) _ _ (ground (arith, l))

period_ends :
    (s : Clock)
    → s.rtc_wait_flag ≡ 1
    → s.user_wait_timeout < usec_per_rtc
    → periodic s ≡ finish_wait s
unfolding periodic
period_ends s w l =
    if_false (s.rtc_wait_flag == 0) _ _ (ground (arith, w))
    ∙ if_true (ltb s.user_wait_timeout usec_per_rtc) _ _ (ground (arith, l))

periods_run :
    (n : ℕ) (s : Clock)
    → s.rtc_wait_flag ≡ 1
    → n * usec_per_rtc ≤ s.user_wait_timeout
    → after_periods n s ≡ left (s.user_wait_timeout - n * usec_per_rtc) s
periods_run zero s w l = ap (λ t. left t s) (omega arith)
periods_run (suc n) s w l =
    ap (after_periods n) (period_runs s w (omega (arith, l)))
    ∙ (periods_run n (left (s.user_wait_timeout - usec_per_rtc) s) w (omega (arith, l))
        ∙ ap (λ t. left t s) (omega arith))

after_suc : (n : ℕ) (s : Clock) → after_periods (suc n) s ≡ periodic (after_periods n s)
after_suc zero s = refl
after_suc (suc n) s = after_suc n (periodic s)

-- `release_rtc` changes the count of users and the CMOS only.
released :
    (s : Clock)
    → 0 < s.rtc_users
    → s.rtc_users < 2 ^ 31
    → let t = release_rtc s in
      (t.bytes ≡ s.bytes) × (t.rtc_wait_flag ≡ s.rtc_wait_flag) × (suc t.rtc_users ≡ s.rtc_users)
unfolding release_rtc
released s o h = elim (Bool-cases (s.rtc_users == 1)) [
  | inl e ↦ (
    ap (λ (t : Clock). t.bytes) (if_true _ _ _ e),
    ap (λ (t : Clock). t.rtc_wait_flag) (if_true _ _ _ e),
    ap (λ (t : Clock). suc t.rtc_users) (if_true _ _ _ e) ∙ omega (arith, o, h),
  )
  | inr e ↦ (
    ap (λ (t : Clock). t.bytes) (if_false _ _ _ e),
    ap (λ (t : Clock). t.rtc_wait_flag) (if_false _ _ _ e),
    ap (λ (t : Clock). suc t.rtc_users) (if_false _ _ _ e) ∙ omega (arith, o, h),
  )
]

pending_cleared :
    (s : Clock)
    → s.rtc_wait_flag ≡ 1
    → clear_usertimer s ≡ release_rtc (record s { rtc_wait_flag = 0 })
unfolding clear_usertimer
pending_cleared s w =
    if_false (not (any_of s.rtc_wait_flag rws_wait_pending)) _ _ (ap (λ f. not (any_of f 1)) w)

abbrev flagged : Clock → Clock
flagged s = record s {
  bytes = λ seg offset.
      if seg == s.complete_seg && offset == s.complete_offset
      then bit_or (s.bytes seg offset) 0x80
      else s.bytes seg offset;
}

wait_finished :
    (s : Clock)
    → s.rtc_wait_flag ≡ 1
    → 0 < s.rtc_users
    → s.rtc_users < 2 ^ 31
    → let t = finish_wait s in
      (t.bytes s.complete_seg s.complete_offset
        ≡ bit_or (s.bytes s.complete_seg s.complete_offset) 0x80)
      × (t.rtc_wait_flag ≡ 0)
      × (suc t.rtc_users ≡ s.rtc_users)
unfolding finish_wait
wait_finished s w o h = (
  ap (λ t. t.bytes s.complete_seg s.complete_offset) cleared
      ∙ (ap (λ f. f s.complete_seg s.complete_offset) after.0
          ∙ if_true (s.complete_seg == s.complete_seg && s.complete_offset == s.complete_offset) _ _
              (ground arith)),
  ap (λ t. t.rtc_wait_flag) cleared ∙ after.1,
  ap (λ t. suc t.rtc_users) cleared ∙ after.2,
)
  where
    cleared : clear_usertimer (flagged s) ≡ release_rtc (record (flagged s) { rtc_wait_flag = 0 })
    cleared = pending_cleared (flagged s) w

    after :
        let t = release_rtc (record (flagged s) { rtc_wait_flag = 0 }) in
        (t.bytes ≡ (flagged s).bytes) × (t.rtc_wait_flag ≡ 0) × (suc t.rtc_users ≡ s.rtc_users)
    after = released (record (flagged s) { rtc_wait_flag = 0 }) o h

-- An interval of the timer that is pending, with at least one and fewer than 2 ^ 31 users of the
-- clock, lasts as many periodic interrupts as fit in it, which change the remaining time only. The next
-- one sets bit 7 of the flag byte, ends the interval and takes this user off the count.
pub interval_ends :
    (s : Clock)
    → s.rtc_wait_flag ≡ 1
    → 0 < s.rtc_users
    → s.rtc_users < 2 ^ 31
    → let n = s.user_wait_timeout / usec_per_rtc in
      let t = after_periods (suc n) s in
      (after_periods n s ≡ record s { user_wait_timeout = s.user_wait_timeout % usec_per_rtc })
      × (t.bytes s.complete_seg s.complete_offset
          ≡ bit_or (s.bytes s.complete_seg s.complete_offset) 0x80)
      × (t.rtc_wait_flag ≡ 0)
      × (suc t.rtc_users ≡ s.rtc_users)
interval_ends s w o h = (
  runs,
  ap (λ t. t.bytes s.complete_seg s.complete_offset) end ∙ (wait_finished rest w o h).0,
  ap (λ t. t.rtc_wait_flag) end ∙ (wait_finished rest w o h).1,
  ap (λ t. suc t.rtc_users) end ∙ (wait_finished rest w o h).2,
)
  where
    n : ℕ
    n = s.user_wait_timeout / usec_per_rtc

    rest : Clock
    rest = left (s.user_wait_timeout % usec_per_rtc) s

    runs : after_periods n s ≡ rest
    runs = periods_run n s w (omega arith) ∙ ap (λ t. left t s) (omega arith)

    end : after_periods (suc n) s ≡ finish_wait rest
    end = after_suc n s ∙ (ap periodic runs ∙ period_ends rest w (omega arith))
