-- ===== src/Approval.antt =====
-- runtime/approval.go: `MessengerApprovalRequester`, which asks a person and waits. Many requests wait
-- at a time: what happens between two blocking calls is one step, and a channel is known by the number
-- of the request that made it. The messenger and the clock are what chooses the steps.
pub mod Local
pub mod Moves
pub mod Refinement
mod Examples
use open_kael.Catalog.{put, without_those}
use open_kael.Prelude.{
  ℕ, suc, ◌+◌, ◌<◌, ◌≡◌, String, Bool, true, false, Option, none, some, List, [], ◌∷◌, ◌++◌,
  if◌then◌else◌, ◌==◌, lookup,
}
use open_kael.Prelude.Text.{◌<>◌, ◌=ₛ◌}

-- How far a call of `RequestApproval` has come. `returned` is what it returns: the answer and the error.
pub data Stage : Type 0 where
  unasked : Stage
  posting : Stage
  waiting : (message_id : String) → Stage
  returned : (approved : Bool) → (error : Option String) → Stage

-- One call: its channel, which holds at most one answer, how far it has come, and what its message
-- was changed to.
pub record Request : Type 0 where
  pub channel : Option Bool
  pub stage : Stage
  pub outcome : Option String

abbrev pub no_request : Request
no_request = record { channel = none; stage = unasked; outcome = none }

-- `MessengerApprovalRequester`. `resolving` are the answers for which `Resolve` has taken a waiter, and
-- which it is about to send.
pub record Requester : Type 0 where
  pub seq : ℕ
  pub waiters : List (String × ℕ)
  pub requests : ℕ → Request
  pub resolving : List (ℕ × Bool)

-- `NewMessengerApprovalRequester`.
abbrev pub new_requester : Requester
new_requester = record { seq = 0; waiters = []; requests = λ n. no_request; resolving = [] }

abbrev pub max_uint64 : ℕ
max_uint64 = 18446744073709551615

-- `r.seq.Add(1)`, on a `uint64`.
abbrev pub next_number : ℕ → ℕ
next_number n = if n == max_uint64 then 0 else n + 1

abbrev pub rejected_text : String
rejected_text = "❌ Rejected — nothing was submitted."

abbrev pub approved_text : String
approved_text = "✅ Approved — proceeding…"

abbrev pub timed_out_text : String
timed_out_text = "⏱ Timed out — nothing happened."

abbrev pub set_request : ℕ → Request → (ℕ → Request) → ℕ → Request
set_request n q requests k = if k == n then q else requests k

abbrev pub remove_waiter : String → List (String × ℕ) → List (String × ℕ)
remove_waiter token = without_those (λ (j, n). j =ₛ token)

-- `print` is fmt's "%d".
module _ (print : ℕ → String) where
  abbrev pub token_of : ℕ → String
  token_of n = "approval-" <> print n

  -- `RequestApproval` up to the posting of the prompt.
  abbrev pub begin_request : Requester → Requester
  begin_request s =
      let n = next_number s.seq in
      record s {
        seq = n;
        waiters = put (token_of n) n s.waiters;
        requests = set_request n (record no_request { stage = posting }) s.requests;
      }

  -- The prompt could not be posted: `cleanup`, and the error.
  abbrev pub post_failed : ℕ → (error : String) → Requester → Requester
  post_failed n e s = record s {
    waiters = remove_waiter (token_of n) s.waiters;
    requests =
        set_request n
          (record (s.requests n) {
            stage = returned false (some ("request approval: post prompt: " <> e));
          })
          s.requests;
  }

  abbrev pub prompt_posted : ℕ → (message_id : String) → Requester → Requester
  prompt_posted n id s = record s {
    requests = set_request n (record (s.requests n) { stage = waiting id }) s.requests;
  }

  -- `case approved := <-ch`.
  abbrev pub receive : ℕ → (approved : Bool) → Requester → Requester
  receive n approved s = record s {
    requests =
        set_request n
          record {
            channel = none;
            stage = returned approved none;
            outcome = some (if approved then approved_text else rejected_text);
          }
          s.requests;
  }

  -- `case <-waitCtx.Done()`, where the error is `waitCtx.Err()`.
  abbrev pub time_out : ℕ → (error : String) → Requester → Requester
  time_out n e s = record s {
    waiters = remove_waiter (token_of n) s.waiters;
    requests =
        set_request n
          (record (s.requests n) { stage = returned false (some e); outcome = some timed_out_text })
          s.requests;
  }

  -- `Resolve` up to the sending: whether there was a waiter, and what it leaves.
  abbrev pub resolve_found :
      (token : String) → (approved : Bool) → Option ℕ → Requester → Bool × Requester
  resolve_found token approved none s = (false, s)
  resolve_found token approved (some n) s = (
    true,
    record s { waiters = remove_waiter token s.waiters; resolving = (n, approved) ∷ s.resolving },
  )

  abbrev pub resolve : (token : String) → (approved : Bool) → Requester → Bool × Requester
  resolve token approved s = resolve_found token approved (lookup token s.waiters) s

  -- `ch <- approved`, where the answers that are still to be sent are left.
  abbrev pub send : ℕ → Bool → (left : List (ℕ × Bool)) → Requester → Requester
  send n approved left s = record s {
    requests = set_request n (record (s.requests n) { channel = some approved }) s.requests;
    resolving = left;
  }

  -- A step of one of the calls. Where an answer is there and the time is over, `select` takes either.
  -- A send waits until the channel is empty. A number is not given twice before 2^64 requests.
  pub data Step (s : Requester) : Requester → Type 0 where
    begins : s.seq < max_uint64 → Step s (begin_request s)
    not_posted : (n : ℕ) (e : String) → (s.requests n).stage ≡ posting → Step s (post_failed n e s)
    is_posted :
        (n : ℕ) (id : String) → (s.requests n).stage ≡ posting → Step s (prompt_posted n id s)
    receives :
        (n : ℕ) (id : String) (approved : Bool)
        → (s.requests n).stage ≡ waiting id
        → (s.requests n).channel ≡ some approved
        → Step s (receive n approved s)
    times_out :
        (n : ℕ) (id e : String) → (s.requests n).stage ≡ waiting id → Step s (time_out n e s)
    resolves : (token : String) (approved : Bool) → Step s (resolve token approved s).1
    sends :
        (before : List (ℕ × Bool)) (n : ℕ) (approved : Bool) (after : List (ℕ × Bool))
        → s.resolving ≡ before ++ ((n, approved) ∷ after)
        → (s.requests n).channel ≡ none
        → Step s (send n approved (before ++ after) s)

  pub data Reached : Requester → Type 0 where
    at_start : Reached new_requester
    next : {s t : Requester} → Reached s → Step s t → Reached t
