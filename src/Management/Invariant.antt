-- ===== src/Management/Invariant.antt =====
-- The stores that internal/api/management.go changes stay in order.
use ai_proxy_centranity.Base.{refl, ◌∙◌, subst, ◌≡◌, none}
use ai_proxy_centranity.Base.Text.{Text}
use ai_proxy_centranity.Base.Assoc.{All-insert, All-remove, All-lookup}
use ai_proxy_centranity.Http.{Writer}
use ai_proxy_centranity.Management.State.{Console, Visit, log_change}
use ai_proxy_centranity.Management.Filing.{IsFiled, KeysFiled, ProxiesFiled, find_key-IsFiled}
use ai_proxy_centranity.Management.Operations.{Operation, perform}
use ai_proxy_centranity.Management.Outcomes.{
  Edit, Outcome, read, refused, done, profile_created, profile_updated, profile_deleted,
  key_created, key_updated, key_deleted, policies_set, route_set, route_deleted,
}
use ai_proxy_centranity.Management.Refinement.{perform-Outcome}

Edit-IsFiled : (v : Visit) (c d : Console) (op : Operation) → Edit v c op d → IsFiled c → IsFiled d
Edit-IsFiled v c d op (profile_created s p b r e) f =
    (f.0, All-insert _ p.id p s refl (subst ProxiesFiled e (f.1)))
Edit-IsFiled v c d op (profile_updated s p q r e l h) f =
    let filed = subst ProxiesFiled e (f.1) in
    (
      f.0,
      All-insert _ v.path_value q s (h ∙ All-lookup (λ (id, p). p.id ≡ id) v.path_value p s l filed)
          filed,
    )
Edit-IsFiled v c d op (profile_deleted s p e l) f =
    (f.0, All-remove _ v.path_value s (subst ProxiesFiled e (f.1)))
Edit-IsFiled v c d op (key_created s k b r e) f =
    (All-insert _ k.hash k s refl (subst KeysFiled e (f.0)), f.1)
Edit-IsFiled v c d op (key_updated s h k l r e m i j) f =
    let filed = subst KeysFiled e (f.0) in
    (All-insert _ h l s (j ∙ find_key-IsFiled v.path_value s h k m filed) filed, f.1)
Edit-IsFiled v c d op (key_deleted s h k e m) f = (All-remove _ h s (subst KeysFiled e (f.0)), f.1)
Edit-IsFiled v c d op (policies_set e r h) f = f
Edit-IsFiled v c d op (route_set t ts) f = f
Edit-IsFiled v c d op (route_deleted e h) f = f

Outcome-IsFiled :
    (v : Visit) (c : Console) (op : Operation) (r : Console × Writer)
    → Outcome v c op r
    → IsFiled c
    → IsFiled (r.0)
unfolding log_change
Outcome-IsFiled v c op r (read w h) f = f
Outcome-IsFiled v c op r (refused w h) f = f
Outcome-IsFiled v c op r (done w d edit h) f = Edit-IsFiled v c d op edit f

-- Every operation of the management API keeps the stores in order: each key stands under its hash,
-- each profile under its identifier.
pub perform-IsFiled :
    (hash_key : Text → Text) (op : Operation) (v : Visit) (c : Console) (w : Writer)
    → w.sent ≡ none
    → IsFiled c
    → IsFiled ((perform hash_key op v c w).0)
perform-IsFiled hash_key op v c w unsent f =
    Outcome-IsFiled v c op _ (perform-Outcome v c w unsent hash_key op f) f
