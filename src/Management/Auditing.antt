-- ===== src/Management/Auditing.antt =====
-- What internal/api/management.go leaves in the audit log.
use ai_proxy_centranity.Base.{◌≡◌, ◌≤◌, ◌<◌, ◌⊎◌, true, false}
use ai_proxy_centranity.Base.Text.{Text}
use ai_proxy_centranity.Http.{Writer, status_of}
use ai_proxy_centranity.Management.State.{Console, Visit, changed}
use ai_proxy_centranity.Management.Operations.{Operation, is_read, resource_of}

-- An operation that only reads changes nothing, whatever it answers. Any other one either changes
-- nothing and answers with an error, or logs its one event and answers with a success.
abbrev pub IsAccounted : Visit → Console → Operation → Console × Writer → Type 0
IsAccounted v c op (d, w) =
    ((is_read op ≡ true) × (d ≡ c))
    ⊎ ((is_read op ≡ false)
        × (((d ≡ c) × (400 ≤ status_of w))
            ⊎ ((d.audit_store ≡ changed v (resource_of op) c.audit_store) × (status_of w < 300))))
