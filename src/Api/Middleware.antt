-- ===== src/Api/Middleware.antt =====
-- The wrapper of every handler and its writer: `wrap` and `statusWriter` of
-- backend/internal/api/middleware.go.
use mini_eureka.Prelude.{
  All, ◌||◌, ◌∙◌, ℕ, if◌then◌else◌, Bool, true, false, not, ◌&&◌, Option, none, some, List, [], ◌∷◌,
  ◌++◌, ◌≡◌, arith, refl, ap, Bool-cases, inl, inr,
}
use mini_eureka.Prelude.Text.{Text}
use mini_eureka.Prelude.Time.{Time}
use mini_eureka.Api.{RateLimiter, allow}
use mini_eureka.Api.Replies.{Failure, failure, internal_error}

-- What the wrapped `http.ResponseWriter` is asked for.
pub data Passed : Type 0 where
  header : ℕ → Passed
  body flushed read_in taken_over : Passed

-- `statusWriter`, with the calls that it has passed on. Bytes are left out.
pub record Writer : Type 0 where
  pub status : ℕ
  pub wrote_header : Bool
  pub passed_on : List Passed

abbrev pub fresh_writer : Writer
fresh_writer = record { status = 200; wrote_header = false; passed_on = [] }

abbrev pass : Passed → Writer → Writer
pass p w = record w { passed_on = w.passed_on ++ (p ∷ []) }

-- `WriteHeader`
unfoldable pub write_header : ℕ → Writer → Writer
write_header status w =
    if w.wrote_header
    then w
    else pass (header status) (record w { status = status; wrote_header = true })

-- `Write`
unfoldable pub write_body : Writer → Writer
unfolding write_header
write_body w = pass body (if w.wrote_header then w else write_header 200 w)

-- `Hijack`, with whether the wrapped writer is an `http.Hijacker`: without one there is an error and
-- nothing changes.
unfoldable pub hijack : Bool → Writer → Writer
hijack false w = w
hijack true w = pass taken_over (record w { status = 101; wrote_header = true })

-- `Flush`, with whether the wrapped writer is an `http.Flusher`. That a header has gone is not noted.
unfoldable pub flush : Bool → Writer → Writer
flush false w = w
flush true w = pass flushed w

-- `ReadFrom`: the wrapped writer reads, or the bytes are copied to it; neither is noted.
unfoldable pub read_from : Writer → Writer
read_from w = pass read_in w

-- What a handler does with its writer, one call after the other.
pub data Action : Type 0 where
  writes_header : ℕ → Action
  writes_body reads_from : Action
  hijacks flushes : Bool → Action

unfoldable pub act : Action → Writer → Writer
unfolding write_header write_body hijack flush read_from
act (writes_header status) w = write_header status w
act writes_body w = write_body w
act reads_from w = read_from w
act (hijacks able) w = hijack able w
act (flushes able) w = flush able w

unfoldable pub act_all : List Action → Writer → Writer
unfolding act
act_all [] w = w
act_all (a ∷ as') w = act_all as' (act a w)

-- How a handler runs: its calls, and whether it panics after them.
pub record Handling : Type 0 where
  pub actions : List Action
  pub panics : Bool

abbrev write_failure : Failure → Writer → Writer
write_failure f w = write_body (write_header f.status w)

-- `next.ServeHTTP` and the deferred recovery.
unfoldable pub recovered : Handling → Writer → Writer
unfolding act_all write_header write_body
recovered h w =
    let w' = act_all h.actions w in
    if h.panics && not w'.wrote_header then write_failure internal_error w' else w'

-- `clientIP`, with `net.SplitHostPort` as a parameter.
unfoldable pub client_ip : (Text → Option (Text × Text)) → Text → Text
client_ip split remote = elim (split remote) [ none ↦ remote | some (host, port) ↦ host ]

-- `wrap`: the limiter, the writer, and whether the handler was run. `internal` is whether the path is
-- one of the nodes' own.
unfoldable pub wrap :
    Handling → Bool → Text → Time → Option RateLimiter → Option RateLimiter × Writer × Bool
unfolding recovered
wrap h internal client started none = (none, recovered h fresh_writer, true)
wrap h internal client started (some l) =
    let (l', allowed) = allow client started l in
    if internal
    then (some l, recovered h fresh_writer, true)
    else if allowed
    then (some l', recovered h fresh_writer, true)
    else (some l', write_failure (failure 429 "rate_limited") fresh_writer, false)

-- The handler uses `WriteHeader` and `Write` only.
abbrev pub is_plain : Action → Bool
is_plain (writes_header status) = true
is_plain writes_body = true
is_plain _ = false

-- The first status that a plain handler asks for: it stands, and a body before any status asks for 200.
abbrev pub first_status : List Action → Option ℕ
first_status [] = none
first_status (writes_header status ∷ as') = some status
first_status (writes_body ∷ as') = some 200
first_status (_ ∷ as') = none

abbrev pub bodies : List Action → List Passed
bodies [] = []
bodies (writes_body ∷ as') = body ∷ bodies as'
bodies (_ ∷ as') = bodies as'

-- A writer whose status has been written, with what follows it.
abbrev pub answered : ℕ → List Passed → Writer
answered status after = record {
  status = status;
  wrote_header = true;
  passed_on = header status ∷ after;
}

-- How a plain handler's request is answered: with its first status and then its bodies, with 500 if it
-- panics before, and not at all if it returns without a call.
abbrev pub plain_answer : Handling → Writer
plain_answer h = elim (first_status h.actions) [
  | some status ↦ answered status (bodies h.actions)
  | none ↦ if h.panics then answered 500 (body ∷ []) else fresh_writer
]

append_nil : (ps : List Passed) → ps ≡ ps ++ []
append_nil [] = refl
append_nil (p ∷ ps) = ap (λ l. p ∷ l) (append_nil ps)

append_one : (p : Passed) (ps qs : List Passed) → (ps ++ (p ∷ [])) ++ qs ≡ ps ++ (p ∷ qs)
append_one p [] qs = refl
append_one p (q ∷ ps) qs = ap (λ l. q ∷ l) (append_one p ps qs)

later_actions :
    (status : ℕ) (after : List Passed) (xs : List Action)
    → All (λ a. is_plain a ≡ true) xs
    → act_all xs (answered status after) ≡ answered status (after ++ bodies xs)
unfolding act_all act write_header write_body
later_actions status after [] h = ap (answered status) (append_nil after)
later_actions status after (writes_header s ∷ xs) h = later_actions status after xs h.1
later_actions status after (writes_body ∷ xs) h =
    later_actions status (after ++ (body ∷ [])) xs h.1
    ∙ ap (answered status) (append_one body after (bodies xs))
later_actions status after (reads_from ∷ xs) h = absurd (ground (arith, h.0))
later_actions status after (hijacks b ∷ xs) h = absurd (ground (arith, h.0))
later_actions status after (flushes b ∷ xs) h = absurd (ground (arith, h.0))

plain_run :
    (xs : List Action) (b : Bool)
    → All (λ a. is_plain a ≡ true) xs
    → recovered (record { actions = xs; panics = b }) fresh_writer
      ≡ plain_answer (record { actions = xs; panics = b })
unfolding recovered act_all act write_header write_body
plain_run [] true h = refl
plain_run [] false h = refl
plain_run (writes_header s ∷ xs) b h =
    rw (later_actions s [] xs h.1) (unfold recovered in ground arith)
plain_run (writes_body ∷ xs) b h = rw (later_actions 200 (body ∷ []) xs h.1) (ground arith)
plain_run (reads_from ∷ xs) b h = absurd (ground (arith, h.0))
plain_run (hijacks able ∷ xs) b h = absurd (ground (arith, h.0))
plain_run (flushes able ∷ xs) b h = absurd (ground (arith, h.0))

recovered_plain :
    (h : Handling)
    → All (λ a. is_plain a ≡ true) h.actions
    → recovered h fresh_writer ≡ plain_answer h
recovered_plain h p = plain_run h.actions h.panics p

-- Whether the limiter lets a request through that is not one of the nodes' own.
abbrev pub lets_through : Text → Time → Option RateLimiter → Bool
lets_through client started none = true
lets_through client started (some l) = (allow client started l).1

-- A request is given to its handler exactly if it is internal or the limiter lets it through, and is
-- answered with 429 otherwise. A handler that calls only `WriteHeader` and `Write` and may panic after
-- its calls answers with its first status, 200 if a body comes before any, and all its bodies; with
-- 500, also as the recorded status, if it panics before it has written; and what it asks for
-- after its first status changes neither the recorded status nor the header. `Flush`, `ReadFrom` and
-- `Hijack` are excluded.
pub wrap_lem :
    (h : Handling) (internal : Bool) (client : Text) (started : Time) (l : Option RateLimiter)
    → All (λ a. is_plain a ≡ true) h.actions
    → ((wrap h internal client started l).2 ≡ (internal || lets_through client started l))
      × ((wrap h internal client started l).1 ≡ (
          if internal || lets_through client started l
          then plain_answer h
          else answered 429 (body ∷ [])))
unfolding wrap write_header write_body
wrap_lem h true client started none p = (refl, recovered_plain h p)
wrap_lem h false client started none p = (refl, recovered_plain h p)
wrap_lem h true client started (some l) p = (refl, recovered_plain h p)
wrap_lem h false client started (some l) p = elim (Bool-cases (allow client started l).1) [
  | inl allowed ↦ rw allowed (refl, recovered_plain h p)
  | inr refused ↦ rw refused (refl, refl)
]
