-- ===== src/Gateway/Service/Static.antt =====
-- Which files the gateway serves.
use certos.Base.{[], ◌∷◌, Option, some, ◌≡◌, refl, Text, txt, starts_with, text_beq, text_eq}
use certos.Config.{GatewayConfig}
use certos.Gateway.{Method, handle, Action}
use certos.Gateway.Cuts.{found_at_start-starts_with}
use certos.Gateway.Json.{Json}
use certos.Gateway.Bridge.{MasterStub}
use certos.Gateway.Service.{Files, ok, content_type, extension, join, serve_file, respond, act}

two_slashes :
    (method : Method) (rest : Text) (authorization : Option Text)
    → handle method (b'/' ∷ b'/' ∷ rest) authorization ≡ Action.static_file (b'/' ∷ rest)
unfolding handle text_beq starts_with
two_slashes method rest authorization =
    rw (found_at_start-starts_with (b'/' ∷ b'/' ∷ rest) (txt "/api/")) refl

join_absolute : (root rest : Text) → join root (b'/' ∷ rest) ≡ b'/' ∷ rest
unfolding join starts_with
join_absolute root rest = rw (found_at_start-starts_with (b'/' ∷ rest) (txt "/")) refl

module _ (js : Json) {M F : Type 0} (stub : MasterStub M) (files : Files F) where
  served :
      (root rest content : Text) (f : F)
      → files.read (b'/' ∷ rest) f ≡ some content
      → serve_file js stub files root (b'/' ∷ rest) f ≡ record {
        status = ok;
        headers = (txt "Content-Type", content_type (extension (b'/' ∷ rest))) ∷ [];
        body = content;
      }
  unfolding serve_file
  served root rest content f there =
      rw (join_absolute root rest, there, serve_file) (rw (join_absolute root rest) refl)

  -- Whoever asks for a target with two slashes at its start is given the file of the host that has the
  -- rest, with the second slash, as its absolute path, if the gateway can read it; the web root does
  -- not matter, and neither do the method, a token and the body.
  pub absolute_path_served :
      (config : GatewayConfig) (method : Method) (rest : Text) (authorization : Option Text)
      (body content : Text) (m : M) (f : F)
      → files.read (b'/' ∷ rest) f ≡ some content
      → respond js stub files config method (b'/' ∷ b'/' ∷ rest) authorization body (m, f) ≡ (
        (m, f),
        record {
          status = ok;
          headers = (txt "Content-Type", content_type (extension (b'/' ∷ rest))) ∷ [];
          body = content;
        },
      )
  unfolding respond act
  absolute_path_served config method rest authorization body content m f there =
      rw (two_slashes method rest authorization, served config.web_root rest content f there, act)
        refl
