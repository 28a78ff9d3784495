-- ===== src/Endpoints/Jwks.antt =====
-- `jwks_endpoint`: the key set that a node publishes.
pub mod Peer
pub mod Examples
use qwed_a2a.Prelude.{Bool}
use qwed_a2a.Prelude.Text.{Text, lit}
use qwed_a2a.Interceptor.Message.{Value, array, object, no_items, item, no_fields, field}
use qwed_a2a.Crypto.Service.{Jwt}
use qwed_a2a.Crypto.KeyPair.{Keys, KeyStore}
use qwed_a2a.Crypto.Jwk.{Published, published, no_key, too_large, get_public_key_jwk}

-- The document, a 503, or an exception that the route does not catch.
pub data JwksResponse : Type 0 where
  key_set : Value → JwksResponse
  unavailable uncaught : JwksResponse

unfoldable pub key_set_of : Published → JwksResponse
unfolding lit
key_set_of (published jwk) =
    key_set (object (field (lit "keys") (array (item jwk no_items)) no_fields))
key_set_of (no_key e) = unavailable
key_set_of too_large = uncaught

-- `jwks_endpoint`, of the service of `get_interceptor()`.
unfoldable pub jwks_endpoint :
    (j : Jwt) → Keys j → Bool → Text → KeyStore j → KeyStore j × JwksResponse
unfolding key_set_of
jwks_endpoint j lib has_crypto env s =
    let (s', jwk) = get_public_key_jwk j lib has_crypto env s in (s', key_set_of jwk)
