-- ===== src/KeyServer/PublishResult.antt =====
-- `PublishResult` of jwt/keyserver/result.go: a channel with room for one error or nil, which is closed
-- behind it, and a channel that is closed to cancel.
use jwtproxy.Common.{
  ℕ, zero, suc, inl, inr, Option-cases, ◌≡◌, Bool, true, false, Option, none, some, if◌then◌else◌,
  arith,
}
use jwtproxy.Common.Result.{Error}

-- The buffer holds what was sent and not yet received.
pub record PublishResult : Type 0 where
  pub error_or_nil : Option (Option Error)
  pub closed : Bool
  pub canceled : Bool

-- what an operation on a channel comes to; `blocked` waits for a receiver
pub data Outcome : Type 0 where
  panicked : Outcome
  blocked : Outcome
  done : PublishResult → Outcome

-- `NewPublishResult`
abbrev pub new_publish_result : PublishResult
new_publish_result = record { error_or_nil = none; closed = false; canceled = false }

-- A send, and the close of the channel: a closed channel panics, a full one blocks.
unfoldable pub set_result : Option Error → PublishResult → Outcome
set_result v pr = if pr.closed then panicked else elim pr.error_or_nil [
  | some full ↦ blocked
  | none ↦ done (record pr { error_or_nil = some v; closed = true })
]

-- `Success`
abbrev pub success : PublishResult → Outcome
success pr = set_result none pr

-- `SetError`
abbrev pub set_error : Error → PublishResult → Outcome
set_error e pr = set_result (some e) pr

-- `Cancel`: closing a closed channel panics.
unfoldable pub cancel : PublishResult → Outcome
cancel pr = if pr.canceled then panicked else done (record pr { canceled = true })

-- `<-pr.Result()`: what is received, and none if the receiver waits. A closed channel that is empty
-- gives nil.
unfoldable pub receive : PublishResult → Option (Option Error) × PublishResult
receive pr = elim pr.error_or_nil [
  | some v ↦ (some v, record pr { error_or_nil = none })
  | none ↦ if pr.closed then (some none, pr) else (none, pr)
]

-- what n receives leave
unfoldable pub receives : ℕ → PublishResult → PublishResult
receives zero pr = pr
receives (suc n) pr = receives n (receive pr).1

receive-closed :
    (pr : PublishResult)
    → pr.closed ≡ true
    → ((receive pr).1.error_or_nil ≡ none) × ((receive pr).1.closed ≡ true)
unfolding receive
receive-closed pr c = elim (Option-cases pr.error_or_nil) [
  | inl e ↦ ground arith
  | inr (v, e) ↦ ground arith
]

-- A closed channel stays closed, and an empty one empty.
receives-closed :
    (n : ℕ) (pr : PublishResult)
    → pr.closed ≡ true
    → ((receives n pr).closed ≡ true)
      × (pr.error_or_nil ≡ none → (receives n pr).error_or_nil ≡ none)
unfolding receives
receives-closed zero pr c = (c, λ e. e)
receives-closed (suc n) pr c =
    let (empty, still) = receive-closed pr c in
    let (closed, drained) = receives-closed n (receive pr).1 still in (closed, λ e. drained empty)

-- A new publish result that is set, to an error or to success, gives that to the first receiver; every
-- later receiver gets nil, as for a success, and setting it again panics after any number of receives.
pub set_result-receive :
    (v u : Option Error) (pr : PublishResult) (n : ℕ)
    → set_result v new_publish_result ≡ done pr
    → ((receive pr).0 ≡ some v)
      × ((receive (receives (suc n) pr)).0 ≡ some none)
      × (set_result u (receives n pr) ≡ panicked)
unfolding set_result receive receives
set_result-receive v u pr n h =
    let shut : pr.closed ≡ true = ground arith in
    let (empty, still) = receive-closed pr shut in
    let (closed, drained) = receives-closed n (receive pr).1 still in
    let (closed', same) = receives-closed n pr shut in
    (ground arith, ground (arith, closed, drained empty), ground (arith, closed'))
