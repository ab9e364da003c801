-- ===== src/Server/Linkgen/Open.antt =====
-- The client finds the share of a link that the server made.
use go_hauk.Prelude.{
  ◌==◌, All, Text, index_of, ℕ, ◌≤◌, ◌≡◌, refl, subst, ◌≢◌, Bool, false, none, some, List, [], ◌∷◌,
  ◌++◌, arith, Option,
}
use go_hauk.Frontend.Link.{view_link, init, request, fetch_url}
use go_hauk.Frontend.Link.Address.{IsRest, init-view_link}
use go_hauk.Server.Linkgen.{
  LinkStyle, link_4_plus_4_upper, link_4_plus_4_lower, link_4_plus_4_mixed, link_uuid_v4,
  link_16_hex, link_16_upper, link_16_lower, link_16_mixed, link_32_hex, link_32_upper,
  link_32_lower, link_32_mixed, generate,
}
use go_hauk.Server.Linkgen.Texts.{IsLinkChar, IsByte, IsLink}
use go_hauk.Server.Linkgen.Shape.{style_length, Yields, IsNew, generate-Yields}

index_of-IsLinkChar : (s : Text) → All IsLinkChar s → index_of b'&' s ≡ none
unfolding index_of
index_of-IsLinkChar [] h = refl
index_of-IsLinkChar (c ∷ s) h =
    let other : (c == b'&') ≡ false = ground (arith, h.0) in
    rw (other, index_of-IsLinkChar s h.1) refl

style_length-positive : (style : LinkStyle) → 1 ≤ style_length style
style_length-positive link_4_plus_4_upper = omega arith
style_length-positive link_4_plus_4_lower = omega arith
style_length-positive link_4_plus_4_mixed = omega arith
style_length-positive link_uuid_v4 = omega arith
style_length-positive link_16_hex = omega arith
style_length-positive link_16_upper = omega arith
style_length-positive link_16_lower = omega arith
style_length-positive link_16_mixed = omega arith
style_length-positive link_32_hex = omega arith
style_length-positive link_32_upper = omega arith
style_length-positive link_32_lower = omega arith
style_length-positive link_32_mixed = omega arith

IsLink-some : (n : ℕ) (s : Text) → 1 ≤ n → IsLink n s → s ≢ []
IsLink-some n [] h l = absurd (omega (arith, l.1))
IsLink-some n (c ∷ s) h l = λ e. cc

-- Whatever id the server makes for a share from random bytes, its link opened in the browser asks
-- the server for that share, whatever parameters are added behind it. The public address has no
-- `?`.
pub init-generate :
    (exists : Text → Option Bool) (style : LinkStyle) (fuel : ℕ) (bs cs : List ℕ)
    (public_url id rest : Text)
    → All IsByte bs
    → generate exists style fuel bs ≡ some (id, cs)
    → index_of b'?' public_url ≡ none
    → IsRest rest
    → init (view_link public_url id ++ rest) ≡ request (fetch_url id)
init-generate exists style fuel bs cs public_url id rest bytes found no_query r =
    let y =
      subst (Yields (IsNew exists style)) found (generate-Yields exists style fuel bs bytes) in
    init-view_link public_url id rest no_query (index_of-IsLinkChar id y.0.0.0)
      (IsLink-some (style_length style) id (style_length-positive style) y.0.0) r
