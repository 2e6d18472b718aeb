-- ===== src/Tests/Libraries.antt =====
-- Stand-ins for OpenSSL, Ed25519 and SPQR, which meet the laws that the program relies on.
use ratchet_usb.Prelude.{
  ℕ, ◌+◌, ◌%◌, ◌≡◌, refl, sym, ap, subst, ◌∙◌, true, List, [], ◌∷◌, take, replicate,
  length-replicate, some, some-injective, same_bytes, same_bytes_refl,
}
use ratchet_usb.Outcome.{ok}
use ratchet_usb.Pq.{OpenSsl}
use ratchet_usb.Identity.{Ed25519}
use ratchet_usb.X3dh.Kem.{KemLaws}
use ratchet_usb.X3dh.Dh.{ConversionLaws}
use ratchet_usb.X3dh.Signatures.{EdLaws, DsaLaws}
use ratchet_usb.Session.{Spqr, Libraries}
use ratchet_usb.Tests.Samples.{mix, toy, plain}

abbrev pub toy_sign : List ℕ → List ℕ → List ℕ
toy_sign sk msg = replicate 64 ((mix sk + mix msg) % 256)

-- A public key is its secret key.
abbrev pub toy_ed : Ed25519
toy_ed = record {
  sign = toy_sign;
  verify = λ pk msg sig. same_bytes sig (toy_sign pk msg);
  public_of = λ sk. sk;
  seed_keypair = λ seed. some (seed, seed);
  dh_secret = λ sk. some sk;
  dh_public = λ pk. some pk;
}

pub toy_ed_laws : EdLaws toy_ed
toy_ed_laws = record {
  length-sign = λ sk msg. length-replicate 64 ((mix sk + mix msg) % 256);
  verify-sign = λ sk msg. same_bytes_refl (toy_sign sk msg);
}

unfoldable pub toy_conversion : ConversionLaws toy toy_ed
toy_conversion = record {
  converted = λ sk. sk;
  secret_converts = λ sk. refl;
  public_converts = λ sk. refl;
}

abbrev pub toy_dsa_sign : List ℕ → List ℕ
toy_dsa_sign msg = replicate 3309 (mix msg)

-- A ciphertext and a secret repeat one byte of the draw.
abbrev pub toy_ssl : OpenSsl
toy_ssl = record {
  imports_kem_public = λ pk. true;
  imports_kem_seed = λ seed. true;
  imports_dsa_public = λ pk. true;
  imports_dsa_seed = λ seed. true;
  starts_keygen = true;
  retains_seed = λ seed. true;
  generates_kem = λ seed. true;
  kem_public = λ seed. some (replicate 1184 (mix seed));
  dsa_public = λ seed. some (replicate 1952 (mix seed));
  starts_encapsulation = λ pk. true;
  encapsulate = λ pk drawn. some (replicate 1088 (mix drawn), replicate 32 (mix drawn));
  starts_decapsulation = λ seed. true;
  decapsulate = λ seed ct. some (take 32 ct);
  starts_signing = λ seed. true;
  sign = λ seed msg. some (toy_dsa_sign msg);
  starts_verification = λ pk. true;
  verify = λ pk msg sig. same_bytes sig (toy_dsa_sign msg);
  sha3_256 = λ text. some (replicate 32 (mix text));
}

pub toy-KemLaws : KemLaws toy_ssl
toy-KemLaws = record {
  seed_imports = λ seed pk made. refl;
  seed_starts = λ seed pk made. refl;
  decapsulate-encapsulate = λ seed pk drawn ct ss made sealed. ap some (
      ap (take 32) (sym (ap (λ p. p.0) (some-injective sealed)))
      ∙ ap (λ p. p.1) (some-injective sealed));
}

pub toy_dsa_laws : DsaLaws toy_ssl
toy_dsa_laws = record {
  public_imports = λ seed pk made. refl;
  public_starts = λ seed pk made. refl;
  verify-sign = λ seed pk msg sig made signed.
      subst (λ s. same_bytes s (toy_dsa_sign msg) ≡ true) (some-injective signed)
        (same_bytes_refl (toy_dsa_sign msg));
}

-- SPQR: the secret stays the state and is every message's key.
abbrev pub toy_spqr : Spqr
toy_spqr = record {
  initialize = λ initiator secret. ok secret;
  send = λ state drawn. ok (state, 1 ∷ [], state);
  receive = λ state message. ok (state, state);
}

abbrev pub toy_libraries : Libraries
toy_libraries = record { base64 = plain; crypto = toy; ed = toy_ed; ssl = toy_ssl; spqr = toy_spqr }
