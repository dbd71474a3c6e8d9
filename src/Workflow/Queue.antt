-- ===== src/Workflow/Queue.antt =====
-- workflow.go: the queue of task-add signals.
use temporal_auto_scaled_wor.Prelude.{
  ℕ, suc, ◌+◌, ◌-◌, ◌≤◌, leb, if◌then◌else◌, Bool, true, false, ◌&&◌, Option, none, some, List, [],
  ◌∷◌, ◌++◌, length, length-append, Float64, ◌≡◌, refl, sym, ap, subst, ◌∙◌, ◌<◌, zero, arith,
  Bool-cases, inl, inr,
}
use temporal_auto_scaled_wor.Iface.Types.{SignalTaskAddRequest}
use temporal_auto_scaled_wor.Workflow.{Runner, max_pending_task_add_signals}

module _ {ℓ} {A : Type ℓ} where
  abbrev pub take : ℕ → List A → List A
  take zero xs = []
  take (suc n) [] = []
  take (suc n) (x ∷ xs) = x ∷ take n xs

  pub append_assoc : (xs ys zs : List A) → (xs ++ ys) ++ zs ≡ xs ++ (ys ++ zs)
  append_assoc [] ys zs = refl
  append_assoc (x ∷ xs) ys zs = ap (λ l. x ∷ l) (append_assoc xs ys zs)

module _ {ℓ} {A : Type ℓ} where
  take_nothing : (n : ℕ) → take {A = A} n [] ≡ []
  take_nothing zero = refl
  take_nothing (suc n) = refl

  pub appended_nothing : (xs ys : List A) → ys ≡ [] → xs ++ ys ≡ xs
  appended_nothing [] ys h = h
  appended_nothing (x ∷ xs) ys h = ap (λ l. x ∷ l) (appended_nothing xs ys h)

-- The signals that are not nil.
abbrev pub received : List (Option SignalTaskAddRequest) → List (Option SignalTaskAddRequest)
received [] = []
received (none ∷ rs) = received rs
received (some r ∷ rs) = some r ∷ received rs

room_left :
    (n : ℕ) (r : Option SignalTaskAddRequest) (rs : List (Option SignalTaskAddRequest))
    → n < max_pending_task_add_signals
    → take (max_pending_task_add_signals - n) (r ∷ rs)
      ≡ r ∷ take (max_pending_task_add_signals - (n + 1)) rs
room_left n r rs h =
    let e : max_pending_task_add_signals - n ≡ suc (max_pending_task_add_signals - (n + 1)) =
      omega arith in
    ap (λ k. take k (r ∷ rs)) e

no_room :
    (n : ℕ) (rs : List (Option SignalTaskAddRequest))
    → max_pending_task_add_signals ≤ n
    → take (max_pending_task_add_signals - n) rs ≡ []
no_room n rs h = let e : max_pending_task_add_signals - n ≡ 0 = omega arith in ap (λ k. take k rs) e

module _ {F : Float64} {P : Type 0} where
  abbrev pub is_full : Runner F P → Bool
  is_full d = d.limit_pending && leb max_pending_task_add_signals (length d.pending)

  abbrev pub with_signal : SignalTaskAddRequest → Runner F P → Runner F P
  with_signal r d = record d { pending = d.pending ++ (some r ∷ []) }

  unfoldable pub queue_task_add_signal : Option SignalTaskAddRequest → Runner F P → Runner F P
  queue_task_add_signal none d = d
  queue_task_add_signal (some r) d = if is_full d then d else with_signal r d

  -- The signals that wait in the channel, in their order.
  unfoldable pub drain_task_add_signal_channel :
      List (Option SignalTaskAddRequest) → Runner F P → Runner F P
  drain_task_add_signal_channel [] d = d
  drain_task_add_signal_channel (r ∷ rs) d =
      drain_task_add_signal_channel rs (queue_task_add_signal r d)

  -- The drain before a continue-as-new where the queue has no limit.
  unfoldable pub drain_pending_task_add_signals :
      List (Option SignalTaskAddRequest) → Runner F P → Runner F P
  drain_pending_task_add_signals [] d = d
  drain_pending_task_add_signals (none ∷ rs) d = drain_pending_task_add_signals rs d
  drain_pending_task_add_signals (some r ∷ rs) d =
      drain_pending_task_add_signals rs (record (with_signal r d) { state_changed = true })

  -- The drain before a continue-as-new.
  abbrev pub drain_before_continue_as_new :
      List (Option SignalTaskAddRequest) → Runner F P → Runner F P
  drain_before_continue_as_new rs d =
      if d.limit_pending
      then drain_task_add_signal_channel rs d
      else drain_pending_task_add_signals rs d

  abbrev pub with_pending : List (Option SignalTaskAddRequest) → Runner F P → Runner F P
  with_pending rs d = record d { pending = rs }

  -- The signal at the front, and the state without it.
  abbrev pub next_of :
      List (Option SignalTaskAddRequest)
      → Runner F P
      → Option (Option SignalTaskAddRequest × Runner F P)
  next_of [] d = none
  next_of (r ∷ rs) d = some (r, with_pending rs d)

  unfoldable pub next_queued_task_add_signal :
      Runner F P → Option (Option SignalTaskAddRequest × Runner F P)
  next_queued_task_add_signal d = next_of d.pending d

  -- A state whose queue is under the limit keeps it there.
  abbrev pub IsLimited : Runner F P → Type 0
  IsLimited d = (d.limit_pending ≡ true) × (length d.pending ≤ max_pending_task_add_signals)

  queue-full :
      (r : SignalTaskAddRequest) (d : Runner F P)
      → is_full d ≡ true
      → queue_task_add_signal (some r) d ≡ d
  unfolding queue_task_add_signal
  queue-full r d full = rw full

  queue-room :
      (r : SignalTaskAddRequest) (d : Runner F P)
      → is_full d ≡ false
      → queue_task_add_signal (some r) d ≡ with_signal r d
  unfolding queue_task_add_signal
  queue-room r d room = rw room

  below_limit :
      (d : Runner F P)
      → d.limit_pending ≡ true
      → is_full d ≡ false
      → length d.pending < max_pending_task_add_signals
  below_limit d h room = ground arith

  -- What the drain of a signal and those after it leaves, from the state with the signal queued.
  abbrev IsDrained :
      SignalTaskAddRequest → List (Option SignalTaskAddRequest) → Runner F P → Runner F P → Type 0
  IsDrained r rs d d' =
      IsLimited (drain_task_add_signal_channel rs d')
      × ((drain_task_add_signal_channel rs d').pending
          ≡ d.pending
            ++ take (max_pending_task_add_signals - length d.pending) (received (some r ∷ rs)))

  -- A drain of the channel appends the signals that are not nil, in order, as far as there is room
  -- under the limit, and drops the rest; the queue never grows above the limit.
  pub drain_task_add_signal_channel-IsLimited :
      (rs : List (Option SignalTaskAddRequest)) (d : Runner F P)
      → IsLimited d
      → IsLimited (drain_task_add_signal_channel rs d)
        × ((drain_task_add_signal_channel rs d).pending
            ≡ d.pending ++ take (max_pending_task_add_signals - length d.pending) (received rs))
  unfolding drain_task_add_signal_channel queue_task_add_signal
  drain_task_add_signal_channel-IsLimited [] d h =
      (h, sym (appended_nothing d.pending _ (take_nothing _)))
  drain_task_add_signal_channel-IsLimited (none ∷ rs) d h =
      drain_task_add_signal_channel-IsLimited rs d h
  drain_task_add_signal_channel-IsLimited (some r ∷ rs) d h = elim (Bool-cases (is_full d)) [
    | inl full ↦
        let rest = drain_task_add_signal_channel-IsLimited rs d h in
        subst (IsDrained r rs d) (sym (queue-full r d full)) (
          rest.0,
          rest.1
              ∙ ap (λ l. d.pending ++ l)
                  (no_room (length d.pending) (received rs) (ground arith)
                    ∙ sym (no_room (length d.pending) (some r ∷ received rs) (ground arith))),
        )
    | inr room ↦
        let fits : length d.pending < max_pending_task_add_signals = below_limit d h.0 room in
        let grown = length-append d.pending (some r ∷ []) in
        let rest =
          drain_task_add_signal_channel-IsLimited rs (with_signal r d)
            (h.0, rw grown (omega (arith, fits))) in
        subst (IsDrained r rs d) (sym (queue-room r d room)) (
          rest.0,
          rest.1
              ∙ append_assoc d.pending (some r ∷ []) _
              ∙ ap
                  (λ n.
                    d.pending ++ (some r ∷ take (max_pending_task_add_signals - n) (received rs)))
                  grown
              ∙ ap (λ l. d.pending ++ l)
                  (sym (room_left (length d.pending) (some r) (received rs) fits)),
        )
  ]
