-- ===== src/Gateway/Rotation.antt =====
-- crates/wiremesh-gateway/src/rotation.rs: a gateway's own key rotation.
use wire_mesh.Common.{
  ℕ, ◌≡◌, refl, sym, ap, subst, Bool, true, false, Option, none, some, List, [], ◌∷◌, ◌++◌,
  if◌then◌else◌,
}

pub data RotationPhase : Type 0 where
  idle : RotationPhase
  overlapping cut_over : ℕ → RotationPhase

pub data RotationAction : Type 0 where
  mint_bring_up_submit flip_routes tear_down abort : ℕ → RotationAction

pub record Rotation : Type 0 where
  pub phase : RotationPhase

-- `Rotation::new`
unfoldable pub new : Rotation
new = record { phase = idle }

directive_in : RotationPhase → Rotation → ℕ → Option RotationAction × Rotation
directive_in idle r new_epoch =
    (some (mint_bring_up_submit new_epoch), record r { phase = overlapping new_epoch })
directive_in (overlapping e) r new_epoch = (none, r)
directive_in (cut_over e) r new_epoch = (none, r)

unfoldable pub on_directive : Rotation → ℕ → Option RotationAction × Rotation
unfolding directive_in
on_directive r new_epoch = directive_in r.phase r new_epoch

session_in : RotationPhase → Rotation → Bool → Option RotationAction × Rotation
session_in idle r rx = (none, r)
session_in (overlapping new_epoch) r rx =
    if rx
    then (some (flip_routes new_epoch), record r { phase = cut_over new_epoch })
    else (none, r)
session_in (cut_over e) r rx = (none, r)

unfoldable pub on_new_epoch_session : Rotation → Bool → Option RotationAction × Rotation
unfolding session_in
on_new_epoch_session r rx_corroborated = session_in r.phase r rx_corroborated

retired_in : RotationPhase → Rotation → ℕ → Option RotationAction × Rotation
retired_in idle r epoch = (none, r)
retired_in (overlapping e) r epoch = (none, r)
retired_in (cut_over e) r epoch = (some (tear_down epoch), record r { phase = idle })

unfoldable pub on_epoch_retired : Rotation → ℕ → Option RotationAction × Rotation
unfolding retired_in
on_epoch_retired r epoch = retired_in r.phase r epoch

failed_in : RotationPhase → Rotation → Option RotationAction × Rotation
failed_in idle r = (none, r)
failed_in (overlapping new_epoch) r = (some (abort new_epoch), record r { phase = idle })
failed_in (cut_over e) r = (none, r)

unfoldable pub on_failed : Rotation → Option RotationAction × Rotation
unfolding failed_in
on_failed r = failed_in r.phase r

-- what the driver calls
pub data RotationEvent : Type 0 where
  directive : ℕ → RotationEvent
  session : Bool → RotationEvent
  retired : ℕ → RotationEvent
  failed : RotationEvent

unfoldable pub on_event : Rotation → RotationEvent → Option RotationAction × Rotation
unfolding on_directive on_new_epoch_session on_epoch_retired on_failed
on_event r (directive e) = on_directive r e
on_event r (session rx) = on_new_epoch_session r rx
on_event r (retired e) = on_epoch_retired r e
on_event r failed = on_failed r

-- the events that a phase waits for
abbrev pub awaits : RotationPhase → RotationEvent → Bool
awaits idle (directive e) = true
awaits idle other = false
awaits (overlapping c) (session rx) = rx
awaits (overlapping c) failed = true
awaits (overlapping c) other = false
awaits (cut_over c) (retired old) = true
awaits (cut_over c) other = false

-- The phase after some events, and the actions that they asked for, in their order: those of one
-- rotation after another, each at the event that calls for it.
pub data Lifecycle : RotationPhase → List RotationEvent → List RotationAction → Type 0 where
  none_yet : Lifecycle idle [] []
  unmoved :
      {p : RotationPhase} {evs : List RotationEvent} {acts : List RotationAction}
      (ev : RotationEvent)
      → Lifecycle p evs acts
      → awaits p ev ≡ false
      → Lifecycle p (evs ++ ev ∷ []) acts
  minted :
      {evs : List RotationEvent} {acts : List RotationAction} (e : ℕ)
      → Lifecycle idle evs acts
      → Lifecycle (overlapping e) (evs ++ directive e ∷ []) (acts ++ mint_bring_up_submit e ∷ [])
  flipped :
      {evs : List RotationEvent} {acts : List RotationAction} (e : ℕ)
      → Lifecycle (overlapping e) evs acts
      → Lifecycle (cut_over e) (evs ++ session true ∷ []) (acts ++ flip_routes e ∷ [])
  torn_down :
      {evs : List RotationEvent} {acts : List RotationAction} (e old : ℕ)
      → Lifecycle (cut_over e) evs acts
      → Lifecycle idle (evs ++ retired old ∷ []) (acts ++ tear_down old ∷ [])
  aborted :
      {evs : List RotationEvent} {acts : List RotationAction} (e : ℕ)
      → Lifecycle (overlapping e) evs acts
      → Lifecycle idle (evs ++ failed ∷ []) (acts ++ abort e ∷ [])

abbrev emitted : Option RotationAction → List RotationAction
emitted none = []
emitted (some a) = a ∷ []

-- the rotation and all actions so far
unfoldable pub run :
    Rotation → List RotationAction → List RotationEvent → List RotationAction × Rotation
run r acts [] = (acts, r)
run r acts (e ∷ es) = let (act, q) = on_event r e in run q (acts ++ emitted act) es

append_nil : {A : Type 0} (xs : List A) → xs ++ [] ≡ xs
append_nil [] = refl
append_nil (x ∷ xs) = ap (λ t. x ∷ t) (append_nil xs)

append_one : {A : Type 0} (xs : List A) (y : A) (ys : List A) → (xs ++ y ∷ []) ++ ys ≡ xs ++ y ∷ ys
append_one [] y ys = refl
append_one (x ∷ xs) y ys = ap (λ t. x ∷ t) (append_one xs y ys)

abbrev Follows :
    List RotationEvent → List RotationAction → Option RotationAction × Rotation → Type 0
Follows evs acts out = Lifecycle out.1.phase evs (acts ++ emitted out.0)

event_in : RotationPhase → Rotation → RotationEvent → Option RotationAction × Rotation
event_in p r (directive e) = directive_in p r e
event_in p r (session rx) = session_in p r rx
event_in p r (retired e) = retired_in p r e
event_in p r failed = failed_in p r

module _ (evs : List RotationEvent) (acts : List RotationAction) where
  unmoved-Follows :
      (p : RotationPhase) (r : Rotation) (ev : RotationEvent)
      → p ≡ r.phase
      → Lifecycle p evs acts
      → awaits p ev ≡ false
      → Follows (evs ++ ev ∷ []) acts (none, r)
  unmoved-Follows p r ev h l w =
      subst (λ q. Lifecycle q (evs ++ ev ∷ []) (acts ++ [])) h
        (subst (Lifecycle p (evs ++ ev ∷ [])) (sym (append_nil acts)) (unmoved ev l w))

  event_in-Follows :
      (p : RotationPhase) (r : Rotation) (ev : RotationEvent)
      → p ≡ r.phase
      → Lifecycle p evs acts
      → Follows (evs ++ ev ∷ []) acts (event_in p r ev)
  unfolding event_in directive_in session_in retired_in failed_in
  event_in-Follows idle r (directive e) h l = minted e l
  event_in-Follows idle r (session rx) h l = unmoved-Follows idle r (session rx) h l refl
  event_in-Follows idle r (retired e) h l = unmoved-Follows idle r (retired e) h l refl
  event_in-Follows idle r failed h l = unmoved-Follows idle r failed h l refl
  event_in-Follows (overlapping c) r (directive e) h l =
      unmoved-Follows (overlapping c) r (directive e) h l refl
  event_in-Follows (overlapping c) r (session true) h l = flipped c l
  event_in-Follows (overlapping c) r (session false) h l =
      unmoved-Follows (overlapping c) r (session false) h l refl
  event_in-Follows (overlapping c) r (retired e) h l =
      unmoved-Follows (overlapping c) r (retired e) h l refl
  event_in-Follows (overlapping c) r failed h l = aborted c l
  event_in-Follows (cut_over c) r (directive e) h l =
      unmoved-Follows (cut_over c) r (directive e) h l refl
  event_in-Follows (cut_over c) r (session rx) h l =
      unmoved-Follows (cut_over c) r (session rx) h l refl
  event_in-Follows (cut_over c) r (retired e) h l = torn_down c e l
  event_in-Follows (cut_over c) r failed h l = unmoved-Follows (cut_over c) r failed h l refl

on_event-Follows :
    (r : Rotation) (evs : List RotationEvent) (acts : List RotationAction) (ev : RotationEvent)
    → Lifecycle r.phase evs acts
    → Follows (evs ++ ev ∷ []) acts (on_event r ev)
unfolding on_event event_in
on_event-Follows r evs acts (directive e) l =
    event_in-Follows evs acts r.phase r (directive e) refl l
on_event-Follows r evs acts (session rx) l = event_in-Follows evs acts r.phase r (session rx) refl l
on_event-Follows r evs acts (retired e) l = event_in-Follows evs acts r.phase r (retired e) refl l
on_event-Follows r evs acts failed l = event_in-Follows evs acts r.phase r failed refl l

run-Follows :
    (r : Rotation) (evs : List RotationEvent) (acts : List RotationAction) (es : List RotationEvent)
    → Lifecycle r.phase evs acts
    → Lifecycle (run r acts es).1.phase (evs ++ es) (run r acts es).0
unfolding run
run-Follows r evs acts [] l = subst (λ t. Lifecycle r.phase t acts) (sym (append_nil evs)) l
run-Follows r evs acts (e ∷ es) l =
    subst (λ t. Lifecycle (run r acts (e ∷ es)).1.phase t (run r acts (e ∷ es)).0)
      (append_one evs e es)
      (run-Follows (on_event r e).1 (evs ++ e ∷ []) (acts ++ emitted (on_event r e).0) es
        (on_event-Follows r evs acts e l))

-- Over every run of a new rotation the actions form whole rotations, each action at the event that
-- calls for it: a directive mints its epoch while the rotation is idle, a corroborated session, and
-- no other, flips the routes to the epoch that was minted, and only after the flip a reported
-- retirement tears down the epoch that it names, whichever that is; a failure before the flip aborts
-- the epoch that was minted. All other events change nothing.
pub run-Lifecycle :
    (es : List RotationEvent) → Lifecycle (run new [] es).1.phase es (run new [] es).0
unfolding new
run-Lifecycle es = run-Follows new [] [] es none_yet
