-- ===== src/SyncInfo/Tests.antt =====
-- sync_info.rs: the QR payload of a concrete SyncInfo.
use crosspaste_server.Codec.{Json, JsonLaws}
use crosspaste_server.Codec.Samples.{sample_base64, sample_base64-laws}
use crosspaste_server.Prelude.{
  Bool-cases, List, Result, String, [], ap, arith, eq_iff, eqb, err, if◌then◌else◌, inl, inr,
  length, nat_Comparable, ok, refl, some, string_Comparable, subst, sym, try, ℕ, ◌<◌, ◌==◌, ◌^◌,
  ◌∷◌, ◌≡◌, ◌≢◌,
}
use crosspaste_server.Prelude.Bytes.{AreBytes}
use crosspaste_server.Prelude.Int.{int_Comparable, pos, ℤ}
use crosspaste_server.SyncInfo.Info.{AppInfo, EndpointInfo, HostInfo, PlatformInfo, SyncInfo}
use crosspaste_server.SyncInfo.Qr.{
  decode_qr_payload, decode_qr_payload-encode_qr_payload, encode_qr_payload, pack,
}

abbrev pub info : SyncInfo
info = record {
  app_info = record {
    app_instance_id = "crosspaste-server";
    app_version = "1.2.6";
    app_revision = "server";
    user_name = "server";
    pairing_version = some (pos 2);
  };
  endpoint_info = record {
    device_id = "server";
    device_name = "CrossPaste Server";
    platform = record { name = "Linux"; arch = "x86_64"; bit_mode = pos 64; version = "6" };
    host_info_list =
        record { network_prefix_length = pos 24; host_address = "192.168.1.9"; last_seen = pos 5 }
        ∷ [];
    port = pos 39445;
  };
}

String-discrete : Discrete String
String-discrete a b = elim (Bool-cases (a == b)) [
  | inl e ↦ yes ((eq_iff a b).0 e)
  | inr e ↦ no (λ same. ground (arith, eq_iff a b))
]

ℤ-discrete : Discrete ℤ
ℤ-discrete a b = elim (Bool-cases (a == b)) [
  | inl e ↦ yes ((int_Comparable.same_iff a b).0 e)
  | inr e ↦ no (λ same. ground (arith, int_Comparable.same_iff a b))
]

AppInfo-discrete : Discrete AppInfo
AppInfo-discrete = hlevel (String-discrete, ℤ-discrete)

HostInfo-discrete : Discrete HostInfo
HostInfo-discrete = hlevel (String-discrete, ℤ-discrete)

PlatformInfo-discrete : Discrete PlatformInfo
PlatformInfo-discrete = hlevel (String-discrete, ℤ-discrete)

EndpointInfo-discrete : Discrete EndpointInfo
EndpointInfo-discrete =
    hlevel (String-discrete, ℤ-discrete, HostInfo-discrete, PlatformInfo-discrete)

SyncInfo-discrete : Discrete SyncInfo
SyncInfo-discrete = hlevel (AppInfo-discrete, EndpointInfo-discrete)

-- The text of `info`, in place of the 500 bytes that JSON has.
abbrev text : List ℕ
text = b'{' ∷ b'"' ∷ b'a' ∷ b'"' ∷ b'}' ∷ []

abbrev write : {s : SyncInfo} → Dec (s ≡ info) → Result String (List ℕ)
write (yes e) = ok text
write (no d) = err "unknown"

abbrev read : List ℕ → Result String SyncInfo
read bytes = if eqb (length bytes) 5 then ok info else err "unknown"

abbrev one : Json SyncInfo
one = record { to_vec = λ s. write (SyncInfo-discrete s info); from_slice = read }

one-JsonLaws : JsonLaws one
one-JsonLaws = record {
  from_slice-to_vec = λ s bytes h. back s bytes (SyncInfo-discrete s info) h;
  to_vec-AreBytes = λ s bytes h. small s bytes (SyncInfo-discrete s info) h;
  to_vec_nonempty = λ s h. full s (SyncInfo-discrete s info) h;
}
  where
    back :
        (s : SyncInfo) (bytes : List ℕ) (d : Dec (s ≡ info))
        → write d ≡ ok bytes
        → read bytes ≡ ok s
    back s bytes (yes e) h =
        let same : text ≡ bytes = ground arith in subst (λ t. read t ≡ ok s) same (ap ok (sym e))
    back s bytes (no d) h = ground arith

    small :
        (s : SyncInfo) (bytes : List ℕ) (d : Dec (s ≡ info)) → write d ≡ ok bytes → AreBytes bytes
    small s bytes (yes e) h =
        let same : text ≡ bytes = ground arith in subst AreBytes same (omega arith)
    small s bytes (no d) h = ground arith

    full : (s : SyncInfo) (d : Dec (s ≡ info)) → write d ≢ ok []
    full s (yes e) h = ground arith
    full s (no d) h = ground arith

serialised : encode_qr_payload sample_base64 one info 7 ≡ ok (pack sample_base64 one text 7)
unfolding encode_qr_payload
serialised = written (SyncInfo-discrete info info)
  where
    written :
        (d : Dec (info ≡ info))
        → try (write d) (λ bytes. ok (pack sample_base64 one bytes 7))
          ≡ ok (pack sample_base64 one text 7)
    written (yes e) = refl
    written (no d) = absurd (d refl)

decode_qr_payload-encode_qr_payload_example :
    decode_qr_payload sample_base64 one (pack sample_base64 one text 7) ≡ ok (info, 7)
decode_qr_payload-encode_qr_payload_example =
    decode_qr_payload-encode_qr_payload sample_base64 one sample_base64-laws one-JsonLaws info 7
      small (pack sample_base64 one text 7) serialised
  where
    small : 7 < 2 ^ 32
    small = omega arith
