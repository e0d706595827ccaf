-- ===== src/Fabric/Watch/Accounting.antt =====
-- What a watch delivers: events in the order in which they were recorded, none twice, and a count of
-- those that are missing.
use iddo_harness.Prelude.{
  append_assoc, take-drop, ℕ, ◌+◌, ◌≤◌, min, ◌≡◌, ◌∙◌, String, Bool, true, false, List, [], ◌∷◌,
  ◌++◌, arith, eqb, ltb, length, length-append, take, drop, if◌then◌else◌, Bool-cases, inl, inr,
  subst, sym, ap, length-drop,
}
use iddo_harness.Prelude.Sublists.{Sub, stop, keep, skip, Sub-refl, Sub-trans}
use iddo_harness.Json.{ℤ}
use iddo_harness.Fabric.Watch.{
  FileEvent, Watch, new_watch, append_bounded, matches, record_event, at_most, drain,
}

-- What happens to a watch: an event, or a poll.
pub data Step : Type 0 where
  recorded : FileEvent → Step
  polled : ℤ → Step

-- What the steps so far have recorded and delivered, and how many events were reported as dropped.
pub record History : Type 0 where
  pub watch : Watch
  pub seen : List FileEvent
  pub delivered : List FileEvent
  pub reported : ℕ

module _ (fnmatch : String → String → Bool) (basename : String → String) where
  unfoldable pub step : Step → History → History
  step (recorded e) h = record h {
    watch = record_event fnmatch basename e h.watch;
    seen = if matches fnmatch basename e.path h.watch then h.seen ++ e ∷ [] else h.seen;
  }
  step (polled n) h =
      let (events, dropped, w) = drain n h.watch in
      record h { watch = w; delivered = h.delivered ++ events; reported = h.reported + dropped }

  abbrev pub history : List Step → History → History
  history [] h = h
  history (s ∷ steps) h = history steps (step s h)

-- The history of a watch that was just made.
abbrev pub start : List String → ℕ → History
start patterns max_buffer = record {
  watch = new_watch patterns max_buffer;
  seen = [];
  delivered = [];
  reported = 0;
}

-- The events that were delivered and those in the buffer are among those that matched, in their order
-- and none twice; what is missing has been counted as dropped; and the buffer is not longer than
-- allowed.
pub record Accounted (h : History) : Type 0 where
  pub in_order : Sub (h.delivered ++ h.watch.events) h.seen
  pub counted :
      length h.seen ≡ length h.delivered + length h.watch.events + h.reported + h.watch.dropped
  pub bounded : length h.watch.events ≤ h.watch.maxlen

Sub-snoc : (e : FileEvent) {xs ys : List FileEvent} → Sub xs ys → Sub (xs ++ e ∷ []) (ys ++ e ∷ [])
Sub-snoc e stop = keep e stop
Sub-snoc e (keep x s) = keep x (Sub-snoc e s)
Sub-snoc e (skip x s) = skip x (Sub-snoc e s)

-- Leaving out the first of the later elements.
Sub-middle : (xs ys : List FileEvent) → Sub (xs ++ drop 1 ys) (xs ++ ys)
Sub-middle [] [] = stop
Sub-middle [] (y ∷ ys) = skip y (Sub-refl ys)
Sub-middle (x ∷ xs) ys = keep x (Sub-middle xs ys)

module _ (fnmatch : String → String → Bool) (basename : String → String) where
  recorded-Accounted :
      (e : FileEvent) (h : History) → Accounted h → Accounted (step fnmatch basename (recorded e) h)
  unfolding step record_event append_bounded
  recorded-Accounted e h a = elim (Bool-cases (matches fnmatch basename e.path h.watch)) [
    | inr other ↦ rw (step, record_event, other) a
    | inl here ↦
        let events = h.watch.events in
        let len = length-append events (e ∷ []) in
        let seen_len = length-append h.seen (e ∷ []) in
        let placed : Sub (h.delivered ++ (events ++ e ∷ [])) (h.seen ++ e ∷ []) =
          subst (λ xs. Sub xs (h.seen ++ e ∷ [])) (append_assoc h.delivered events (e ∷ []))
            (Sub-snoc e a.in_order) in
        elim (Bool-cases (ltb h.watch.maxlen (length (events ++ e ∷ [])))) [
          | inl full ↦
              let at_limit : eqb (length events) h.watch.maxlen ≡ true =
                ground (arith, len, a.bounded) in
              let shorter = length-drop 1 (events ++ e ∷ []) in
              rw (step, record_event, here, append_bounded, full, at_limit)
                (record {
                  in_order = Sub-trans placed (Sub-middle h.delivered (events ++ e ∷ []));
                  counted = omega (arith, seen_len, len, shorter, a.counted);
                  bounded = omega (arith, len, shorter, a.bounded);
                })
          | inr room ↦
              let below : eqb (length events) h.watch.maxlen ≡ false = ground (arith, len) in
              rw (step, record_event, here, append_bounded, room, below)
                (record {
                  in_order = placed;
                  counted = omega (arith, seen_len, len, a.counted);
                  bounded = ground (arith, len);
                })
        ]
  ]

  polled-Accounted :
      (n : ℤ) (h : History) → Accounted h → Accounted (step fnmatch basename (polled n) h)
  unfolding step drain
  polled-Accounted n h a =
      let k = min (at_most n) (length h.watch.events) in
      let whole = take-drop k h.watch.events in
      let parts = length-append (take k h.watch.events) (drop k h.watch.events) in
      record {
        in_order =
            subst (λ xs. Sub xs h.seen)
              (ap (λ xs. h.delivered ++ xs) (sym whole)
                ∙ sym (append_assoc h.delivered (take k h.watch.events) (drop k h.watch.events)))
              a.in_order;
        counted = omega (
          arith,
          a.counted,
          length-append h.delivered (take k h.watch.events),
          parts,
          ap length whole,
        );
        bounded = omega (arith, a.bounded, length-drop k h.watch.events);
      }

  history-Accounted :
      (steps : List Step) (h : History) → Accounted h → Accounted (history fnmatch basename steps h)
  history-Accounted [] h a = a
  history-Accounted (recorded e ∷ steps) h a = history-Accounted steps _ (recorded-Accounted e h a)
  history-Accounted (polled n ∷ steps) h a = history-Accounted steps _ (polled-Accounted n h a)

  -- After any sequence of events and polls, the events that a watch has delivered and those in its
  -- buffer are among the events that matched, in their order and none twice; those that are missing have
  -- been counted as dropped; and the buffer is not longer than allowed.
  pub start-Accounted :
      (patterns : List String) (max_buffer : ℕ) (steps : List Step)
      → Accounted (history fnmatch basename steps (start patterns max_buffer))
  unfolding new_watch
  start-Accounted patterns max_buffer steps =
      history-Accounted steps (start patterns max_buffer)
        (record { in_order = stop; counted = omega arith; bounded = omega arith })
