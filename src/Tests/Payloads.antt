-- ===== src/Tests/Payloads.antt =====
-- Tests of the payload container, with stand-ins for the JSON functions and the codecs.
use uxsp.Prelude.{true, some, [], ◌∷◌}
use uxsp.Prelude.Result.{ok}
use uxsp.Prelude.Value.{null, int, pos, str}
use uxsp.Chunking.{Library}

-- The one header is the byte 1, and the one text, a letter, is the byte 65.
abbrev functions : Library
functions = record {
  sha256_hex = λ b. "";
  is_hex = λ s. true;
  lower = λ s. s;
  dumps = λ d. 1 ∷ [];
  loads = λ b. some (
      some (
        ("kind", str "text")
        ∷ ("filename", null)
        ∷ ("content_type", str "text/plain")
        ∷ ("encoding", str "utf-8")
        ∷ ("body_len", int (pos 1))
        ∷ []));
  encode = λ e s. ok (65 ∷ []);
  decode = λ e b. ok "A";
  is_hashable = λ n. true;
}
