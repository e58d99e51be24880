-- ===== src/Cache.antt =====
-- nwep/src/cache.rs, the store of signed responses (here), and `Client::set_cache` of
-- nwep/src/client.rs, which shares a cache between clients (Cache/Shared.antt). What is stored and what is
-- fresh is libnwep's to say.
pub mod Shared
pub mod Lifetime
mod Tests
use nwep_rs.Base.{
  ℤ, ℕ, pos, not, ◌&&◌, Option, none, some, [], Bytes, ascii, eq_ℤ, ◌==◌, if◌then◌else◌,
}
use nwep_rs.Error.{Result, ok, err, internal_alloc, check}
use nwep_rs.Ffi.{Call, lift, ◌>>=◌, cstring, cstring_or_invalid}
use nwep_rs.Client.Api.{Response}
use nwep_rs.Utf8.{is_utf8}
use nwep_rs.Wire.{Method, method_code}

-- `CacheStats`.
pub record CacheStats : Type 0 where
  pub hits : ℕ
  pub misses : ℕ
  pub stores : ℕ
  pub evictions : ℕ

-- `Cache`.
pub record Cache : Type 0 where
  pub raw : ℕ

-- The cache of libnwep, a parameter. A handle or a message is a pointer, 0 the null one.
pub record CacheApi (W : Type 0) : Type 0 where
  pub cache_create : ℕ → ℕ → W → ℕ × W
  pub cache_put_signed : ℕ → Bytes → Bytes → ℕ → Bytes → ℕ → W → ℤ × W
  pub cache_get_signed : ℕ → Bytes → Bytes → Bytes → ℕ → W → (ℤ × ℕ) × W
  pub cache_clear : ℕ → W → W
  pub cache_stats : ℕ → W → CacheStats
  pub cache_free : ℕ → W → W
  pub method_str : ℤ → Bytes

-- `static_token`.
unfoldable pub static_token : Bytes → Bytes
static_token t = if is_utf8 t then t else ascii "error"

module _ {W : Type 0} (api : CacheApi W) where
  -- `method_cstr`, which is empty where `CString::new` refuses the token of `Method::as_str`.
  unfoldable pub method_cstr : Method → Bytes
  unfolding static_token method_code
  method_cstr method = elim (cstring (static_token (api.method_str (method_code method)))) [
    | none ↦ []
    | some c ↦ c
  ]

  -- `Cache::new`.
  unfoldable pub new : ℕ → ℕ → Call W Cache
  new max_bytes max_entries w =
      let (raw, w') = api.cache_create max_bytes max_entries w in
      (if raw == 0 then err internal_alloc else ok (record { raw = raw }), w')

  -- `put_signed`.
  unfoldable pub put_signed : Cache → Method → Bytes → Response → Bytes → ℕ → Call W (Unit {0})
  unfolding method_cstr
  put_signed cache method path response origin_pubkey now_secs = do
    cpath ← lift (cstring_or_invalid path)
    (λ w.
        let (rc, w') =
          api.cache_put_signed cache.raw (method_cstr method) cpath response.msg origin_pubkey
            now_secs w in
        (check rc, w'))

  -- `get_signed` after its path is made: a hit needs the code 0 and a message.
  unfoldable pub got : ℤ × ℕ → Option Response
  got (rc, msg) = if eq_ℤ rc (pos 0) && not (msg == 0) then some (record { msg = msg }) else none

  -- `get_signed`.
  unfoldable pub get_signed : Cache → Method → Bytes → Bytes → ℕ → W → Option Response × W
  unfolding method_cstr got
  get_signed cache method path origin_pubkey now_secs w = elim (cstring path) [
    | none ↦ (none, w)
    | some cpath ↦
        let (out, w') =
          api.cache_get_signed cache.raw (method_cstr method) cpath origin_pubkey now_secs w in
        (got out, w')
  ]

  -- `clear`.
  unfoldable pub clear : Cache → W → W
  clear cache w = api.cache_clear cache.raw w

  -- `stats`.
  unfoldable pub stats : Cache → W → CacheStats
  stats cache w = api.cache_stats cache.raw w

  -- `Drop for Cache`.
  unfoldable pub drop : Cache → W → W
  drop cache w = api.cache_free cache.raw w
