-- ===== src/Management/Refinement/Replies.antt =====
-- How a handler of internal/api/management.go ends: with an error, or with an event in the audit log.
use ai_proxy_centranity.Base.{◌<◌, ◌≤◌, ℕ, ◌≡◌, sym, subst, none}
use ai_proxy_centranity.Base.Text.{Text}
use ai_proxy_centranity.Http.{Json, Writer, status_of, write_json, write, set, write_header}
use ai_proxy_centranity.Management.State.{Console, Visit, log_change, write_json_error, write_doc}
use ai_proxy_centranity.Management.Outcomes.{Edit, Outcome, refused, done}
use ai_proxy_centranity.Management.Operations.{Operation, resource_of}

-- The status of a response that is written to a fresh writer.
pub status_of-write_json :
    (n : ℕ) (doc : Json) (w : Writer) → w.sent ≡ none → status_of (write_json n doc w) ≡ n
unfolding status_of write_json write write_header set
status_of-write_json n doc w e = rw (e)

pub status_of-write_doc :
    (doc : Json) (w : Writer) → w.sent ≡ none → status_of (write_doc doc w) ≡ 200
unfolding status_of write_doc write set
status_of-write_doc doc w e = rw (e)

pub status_of-write_header : (n : ℕ) (w : Writer) → w.sent ≡ none → status_of (write_header n w) ≡ n
unfolding status_of write_header
status_of-write_header n w e = rw (e)

pub status_of-write_json_error :
    (n : ℕ) (m : Text) (w : Writer) → w.sent ≡ none → status_of (write_json_error n m w) ≡ n
unfolding write_json_error
status_of-write_json_error n m w e = status_of-write_json n _ w e

module _ (v : Visit) (c : Console) (w : Writer) (unsent : w.sent ≡ none) where
  -- An error response that leaves the state as it is.
  pub fail :
      (op : Operation) (n : ℕ) (m : Text) → 400 ≤ n → Outcome v c op (c, write_json_error n m w)
  fail op n m h =
      refused (write_json_error n m w)
        (subst (λ s. 400 ≤ s) (sym (status_of-write_json_error n m w unsent)) h)

  pub logged :
      (op : Operation) (d : Console) (n : ℕ) (x : Writer)
      → status_of x ≡ n
      → n < 300
      → Edit v c op d
      → Outcome v c op (log_change v (resource_of op) d, x)
  logged op d n x e h edit = done x d edit (subst (λ s. s < 300) (sym e) h)
