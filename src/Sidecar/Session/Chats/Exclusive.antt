-- ===== src/Sidecar/Session/Chats/Exclusive.antt =====
-- One chat request at a time in a conversation.
use your_connector.Common.{
  ◌≡◌, refl, ◌∙◌, ap, Bool, true, false, Option, none, some, List, [], ◌∷◌, String, ◌<>◌, ◌==◌,
  ◌&&◌, ==_refl, string_eq, if◌then◌else◌, arith, Option-cases, Bool-cases, inl, inr,
}
use your_connector.Common.HashMap
use your_connector.Common.HashMap.{get-insert, get-remove}
use your_connector.Sidecar.Control.{ChatTarget}
use your_connector.Sidecar.Session.Tool.{ToolRuntimePayload}
use your_connector.Sidecar.Session.Chats.{
  ChatRequestInput, ChatFinalizeKey, ChatRuntime, new_task, started, busy, start_request,
  cancel_request, mark_finished,
}

-- what a session does with the chats while it lasts
pub data ChatStep : Type 0 where
  start : ChatRequestInput → ToolRuntimePayload → Option String → ChatStep
  cancel : ChatTarget → ChatStep
  finish : ChatFinalizeKey → ChatStep

unfoldable pub step : ChatStep → ChatRuntime → ChatRuntime
unfolding start_request cancel_request mark_finished
step (start request tool trace_id) s = (start_request request tool trace_id s).1
step (cancel target) s = (cancel_request target s).1
step (finish key) s = mark_finished key s

unfoldable pub steps : List ChatStep → ChatRuntime → ChatRuntime
unfolding step
steps [] s = s
steps (c ∷ more) s = steps more (step c s)

-- whether the step finishes the request in the conversation
abbrev pub finishes : String → String → ChatStep → Bool
finishes key request_id (finish k) = k.conversation_key == key && k.request_id == request_id
finishes key request_id _ = false

abbrev pub any_finishes : String → String → List ChatStep → Bool
any_finishes key request_id [] = false
any_finishes key request_id (c ∷ more) =
    if finishes key request_id c then true else any_finishes key request_id more

-- the conversation's active request
unfoldable pub owner : String → ChatRuntime → Option String
owner key s = elim (HashMap.get key s.active_by_conversation) [
  | none ↦ none
  | some active ↦ some active.request_id
]

-- The specification: who holds a conversation after a step.
unfoldable pub hold : String → ChatStep → Option String → Option String
hold key (start request tool trace_id) none =
    if key == request.target.conversation_key then some request.target.request_id else none
hold key (start request tool trace_id) (some holder) = some holder
hold key (cancel target) holder = holder
hold key (finish k) none = none
hold key (finish k) (some holder) = if finishes key holder (finish k) then none else some holder

unfoldable pub holds : String → List ChatStep → Option String → Option String
unfolding hold
holds key [] holder = holder
holds key (c ∷ more) holder = holds key more (hold key c holder)

pub owner-start :
    (key : String) (request : ChatRequestInput) (tool : ToolRuntimePayload)
    (trace_id : Option String) (s : ChatRuntime)
    → owner key (step (start request tool trace_id) s)
      ≡ hold key (start request tool trace_id) (owner key s)
unfolding owner step start_request hold
owner-start key request tool trace_id s =
    let mine = request.target.conversation_key in
    ground
      (arith, get-insert key mine (new_task request.target) s.active_by_conversation, ==_refl key)

pub owner-cancel :
    (key : String) (target : ChatTarget) (s : ChatRuntime)
    → owner key (step (cancel target) s) ≡ owner key s
unfolding owner step cancel_request
owner-cancel key target s =
    elim (Option-cases (HashMap.get target.conversation_key s.active_by_conversation)) [
      | inl free ↦ ground (arith, free)
      | inr (active, held) ↦ ground (
        arith,
        held,
        get-insert key target.conversation_key (record active { cancel_tx = true })
            s.active_by_conversation,
      )
    ]

owner-finish :
    (key : String) (k : ChatFinalizeKey) (s : ChatRuntime)
    → owner key (step (finish k) s) ≡ hold key (finish k) (owner key s)
unfolding owner step mark_finished hold
owner-finish key k s = ground (arith, get-remove key k.conversation_key s.active_by_conversation)

owner-step :
    (key : String) (c : ChatStep) (s : ChatRuntime)
    → owner key (step c s) ≡ hold key c (owner key s)
unfolding hold
owner-step key (start request tool trace_id) s = owner-start key request tool trace_id s
owner-step key (cancel target) s = owner-cancel key target s ∙ by_holder (owner key s)
  where
    by_holder : (holder : Option String) → holder ≡ hold key (cancel target) holder
    by_holder none = refl
    by_holder (some h) = refl
owner-step key (finish k) s = owner-finish key k s

-- After any starts, cancellations and endings, a conversation is held by whom the specification
-- says: by the first request that found it free, until that request itself has ended.
pub owner-steps :
    (key : String) (list : List ChatStep) (s : ChatRuntime)
    → owner key (steps list s) ≡ holds key list (owner key s)
unfolding steps holds
owner-steps key [] s = refl
owner-steps key (c ∷ more) s =
    owner-steps key more (step c s) ∙ ap (holds key more) (owner-step key c s)

hold_on :
    (key holder : String) (c : ChatStep)
    → finishes key holder c ≡ false
    → hold key c (some holder) ≡ some holder
unfolding hold
hold_on key holder (start request tool trace_id) lasts = refl
hold_on key holder (cancel target) lasts = refl
hold_on key holder (finish k) lasts = rw lasts refl

holds_on :
    (key holder : String) (list : List ChatStep)
    → any_finishes key holder list ≡ false
    → holds key list (some holder) ≡ some holder
unfolding holds
holds_on key holder [] lasts = refl
holds_on key holder (c ∷ more) lasts = elim (Bool-cases (finishes key holder c)) [
  | inl ends ↦ absurd (ground (arith, lasts, ends))
  | inr lasts_now ↦
      ap (holds key more) (hold_on key holder c lasts_now)
      ∙ holds_on key holder more (ground (arith, lasts, lasts_now))
]

busy_owner :
    (request : ChatRequestInput) (tool : ToolRuntimePayload) (trace_id : Option String)
    (s : ChatRuntime) (holder : String)
    → owner request.target.conversation_key s ≡ some holder
    → start_request request tool trace_id s ≡ (busy ("会话中已有进行中的请求：" <> holder), s)
unfolding owner start_request
busy_owner request tool trace_id s holder held =
    elim (Option-cases (HashMap.get request.target.conversation_key s.active_by_conversation)) [
      | inl free ↦ absurd (ground (arith, held, free))
      | inr (active, taken) ↦ ground (arith, held, taken)
    ]

started_owner :
    (request : ChatRequestInput) (tool : ToolRuntimePayload) (trace_id : Option String)
    (s : ChatRuntime)
    → (start_request request tool trace_id s).0 ≡ started
    → owner request.target.conversation_key (start_request request tool trace_id s).1
      ≡ some request.target.request_id
unfolding owner start_request
started_owner request tool trace_id s begun =
    let mine = request.target.conversation_key in
    elim (Option-cases (HashMap.get mine s.active_by_conversation)) [
      | inl free ↦ ground (
        arith,
        free,
        ==_refl mine,
        get-insert mine mine (new_task request.target) s.active_by_conversation,
      )
      | inr (active, taken) ↦ absurd (ground (arith, begun, taken))
    ]

-- Let a chat request have started, and let any starts, cancellations and endings follow, none the
-- ending of that request. Then another request in the conversation is told that this one is busy,
-- and neither starts a task nor changes the runtime. A cancellation does not free the conversation.
pub one_chat :
    (first second : ChatRequestInput) (tool other_tool : ToolRuntimePayload)
    (trace_id other_trace_id : Option String) (s : ChatRuntime) (between : List ChatStep)
    → (start_request first tool trace_id s).0 ≡ started
    → any_finishes first.target.conversation_key first.target.request_id between ≡ false
    → second.target.conversation_key ≡ first.target.conversation_key
    → start_request second other_tool other_trace_id
        (steps between (start_request first tool trace_id s).1)
      ≡ (
        busy ("会话中已有进行中的请求：" <> first.target.request_id),
        steps between (start_request first tool trace_id s).1,
      )
one_chat first second tool other_tool trace_id other_trace_id s between begun lasts same =
    let now = (start_request first tool trace_id s).1 in
    let key = first.target.conversation_key in
    let holder = first.target.request_id in
    busy_owner second other_tool other_trace_id (steps between now) holder (
      ap (λ k. owner k (steps between now)) same
      ∙ owner-steps key between now
      ∙ ap (holds key between) (started_owner first tool trace_id s begun)
      ∙ holds_on key holder between lasts)
