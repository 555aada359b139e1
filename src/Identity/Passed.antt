-- ===== src/Identity/Passed.antt =====
-- Which identity a handler behind `NewContextHandler` or `NewAuthUnaryInterceptor` sees.
use dolly.Prelude.{◌≡◌, refl, Option, none, some, Str, ◌⊎◌, inl, inr, ap, []}
use dolly.Identity.{
  Identity, guest_identity, RequestContext, Request, from_context, from_request, with_identity,
  or_guest, context_handler, auth_unary_interceptor,
}

-- What the handler inside reads as its identity; the left is the error of the refusal.
abbrev pub seen : Str ⊎ Request → Str ⊎ Option Identity
seen (inl err) = inl err
seen (inr r) = inr (from_request r).identity

abbrev pub seen_in_context : Str ⊎ Option RequestContext → Str ⊎ Option Identity
seen_in_context (inl err) = inl err
seen_in_context (inr ctx) = inr (from_context ctx).identity

-- A context that is there already wins over the mapper.
abbrev pub expected : Option RequestContext → Str ⊎ Option Identity → Str ⊎ Option Identity
expected none mapped = mapped
expected (some rctx) mapped = inr rctx.identity

abbrev pub guest_for_nil : Str ⊎ Option Identity → Str ⊎ Option Identity
guest_for_nil (inl err) = inl err
guest_for_nil (inr none) = inr (some guest_identity)
guest_for_nil (inr (some id)) = inr (some id)

-- Behind the handler of `NewContextHandler` a request has the identity of its context if it came with
-- one, whatever the mapper says, and else the mapper's, a nil identity included; the mapper's error
-- is answered without the delegate. Behind the interceptor of `NewAuthUnaryInterceptor` a call has
-- the identity that the mapper returns for its context, also if it came with another, with the guest's
-- in place of a nil one; the mapper's error refuses the call.
pub identity_seen :
    (mapper : Request → Str ⊎ Option Identity)
    (grpc_mapper : Option RequestContext → Str ⊎ Option Identity) (guid : Str) (r : Request)
    (ctx : Option RequestContext)
    → (seen (context_handler mapper guid r) ≡ expected r.context (mapper r))
      × (seen_in_context (auth_unary_interceptor grpc_mapper ctx) ≡ guest_for_nil (grpc_mapper ctx))
unfolding context_handler auth_unary_interceptor from_context
identity_seen mapper grpc_mapper guid r ctx = (http r.context refl, grpc (grpc_mapper ctx))
  where
    mapped : (m : Str ⊎ Option Identity) → seen (with_identity guid r m) ≡ m
    mapped (inl err) = refl
    mapped (inr id) = refl

    http :
        (o : Option RequestContext)
        → r.context ≡ o
        → seen (elim o as (λ o. Str ⊎ Request) [
          | none ↦ with_identity guid r (mapper r)
          | some rctx ↦ inr r
        ])
          ≡ expected o (mapper r)
    http none e = mapped (mapper r)
    http (some rctx) e = ap (λ o. inr (from_context o).identity) e

    grpc :
        (m : Str ⊎ Option Identity)
        → seen_in_context (elim m as (λ m. Str ⊎ Option RequestContext) [
          | inl err ↦ inl err
          | inr id ↦ inr (some (record { identity = or_guest id; correlation_id = [] }))
        ])
          ≡ guest_for_nil m
    grpc (inl err) = refl
    grpc (inr none) = refl
    grpc (inr (some id)) = refl
