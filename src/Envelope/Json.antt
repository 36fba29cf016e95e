-- ===== src/Envelope/Json.antt =====
-- uxsp/core/envelope.py: the JSON and the byte forms of an envelope.
use uxsp.Prelude.{ℕ, ◌≤◌, ◌≡◌, String, not, ltb, length, arith, Option, some}
use uxsp.Prelude.Result.{
  Result, ok, err, ◌>>=◌, ◌>>◌, guard, value_error, envelope_validation, envelope_too_large,
}
use uxsp.Prelude.Dict.{Dict}
use uxsp.Prelude.Value.{ℤ, Value, int}
use uxsp.Crypto.Symmetric.{Bytes}
use uxsp.Envelope.{Envelope, to_dict, from_dict, uxsp_version}
use uxsp.Envelope.RoundTrip.{from_dict-to_dict}

-- Python's `len` of a text, UTF-8 (where bytes that do not decode are a ValueError), `json.dumps` without
-- indentation, the length of its form without spaces, and `json.loads`: `none` for a text that is no JSON, `some none` for a value that is
-- no object.
pub record Json : Type 0 where
  pub text_length : String → ℕ
  pub encode : String → Bytes
  pub decode : Bytes → Result String
  pub dumps : Dict Value → String
  pub compact_length : Dict Value → ℕ
  pub loads : Bytes → Option (Option (Dict Value))

-- `except UnicodeDecodeError: raise EnvelopeValidationError`
abbrev pub undecodable_as_validation {ℓ} : {A : Type ℓ} → Result A → Result A
undecodable_as_validation (err value_error) = err envelope_validation
undecodable_as_validation r = r

abbrev pub object_of : Option (Option (Dict Value)) → Result (Dict Value)
object_of (some (some d)) = ok d
object_of _ = err envelope_validation

module _ (j : Json) where
  -- `to_json()`
  unfoldable pub to_json : Envelope → String
  to_json e = j.dumps (to_dict e)

  unfoldable pub to_bytes : Envelope → Bytes
  unfolding to_json
  to_bytes e = j.encode (to_json e)

  -- `size_bytes`; the cached value is this one, since an envelope does not change.
  unfoldable pub size_bytes : Envelope → ℕ
  unfolding to_bytes
  size_bytes e = length (to_bytes e)

  module _ (to_int : Value → Result ℤ) where
    unfoldable pub from_json : String → ℕ → Result Envelope
    from_json text limit = do
      guard (not (ltb limit (j.text_length text))) envelope_too_large
      guard (not (ltb limit (length (j.encode text)))) envelope_too_large
      d ← object_of (j.loads (j.encode text))
      from_dict to_int j.compact_length d limit

    unfoldable pub from_bytes : Bytes → ℕ → Result Envelope
    from_bytes raw limit = do text ← undecodable_as_validation (j.decode raw); from_json text limit

    -- An envelope of the current version that `to_bytes` writes, `from_bytes` reads back unchanged under
    -- every limit that its size does not pass, when UTF-8 and JSON read back what they wrote, a text has
    -- no more characters than bytes, the form without spaces is not longer, and `int` answers an integer
    -- with itself.
    pub from_bytes-to_bytes_lem :
        (e : Envelope) (limit : ℕ)
        → e.version ≡ uxsp_version
        → size_bytes e ≤ limit
        → ((n : ℤ) → to_int (int n) ≡ ok n)
        → j.decode (to_bytes e) ≡ ok (to_json e)
        → j.loads (to_bytes e) ≡ some (some (to_dict e))
        → j.text_length (to_json e) ≤ size_bytes e
        → j.compact_length (to_dict e) ≤ size_bytes e
        → from_bytes (to_bytes e) limit ≡ ok e
    unfolding from_bytes from_json to_bytes to_json size_bytes
    from_bytes-to_bytes_lem e limit v fits exact back json short compact =
        let same =
          from_dict-to_dict to_int j.compact_length e limit exact v
            (omega (arith, compact, fits)) in
        ground (arith, same, fits, back, json, short)
