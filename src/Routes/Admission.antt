-- ===== src/Routes/Admission.antt =====
-- routes.rs: which pastes are let in.
use crosspaste_server.Auth.{HeaderMap}
use crosspaste_server.Codec.Value.{Value}
use crosspaste_server.Hub.State.{is_paired}
use crosspaste_server.Prelude.{
  Bool, Bool-cases, Option, Result, String, ap, arith, err, false, if◌then◌else◌, inl, inr,
  nat_Comparable, none, not, ok, ok_or, pair_Comparable, refl, some, string_Comparable, true, try,
  ◌==◌, ◌∙◌, ◌≡◌,
}
use crosspaste_server.Prelude.Chars.{append}
use crosspaste_server.Prelude.Int.{int_Comparable}
use crosspaste_server.Prelude.Map.{Map}
use crosspaste_server.Prelude.Text.{codes_Comparable}
use crosspaste_server.Proxy.{app_instance_id_name, target_name, text_of}
use crosspaste_server.RelayError.{
  Error, app_instance_mismatch, bad_request, decrypt_fail, missing_app_instance_id,
}
use crosspaste_server.Routes.Guards.{
  check_settings, paste_type_of, require_paired_client, setting_is, type_setting, within_limit,
}
use crosspaste_server.Tunnel.State.{AppState}

-- The sender is paired, and the request is for this server.
pub record IsClient (headers : HeaderMap) (s : AppState) (id : String) : Type 0 where
  pub names : text_of app_instance_id_name headers ≡ some id
  pub targets : text_of target_name headers ≡ some s.config.server_instance_id
  pub paired : is_paired id s.hub ≡ true

-- The settings let the paste through.
pub record IsPermitted (stored : Map String String) (paste : Value) : Type 0 where
  pub relays : setting_is "clipboard_relay" "false" stored ≡ false
  pub setting : String
  pub of_type : type_setting (paste_type_of paste) ≡ some setting
  pub switched_on : setting_is setting "false" stored ≡ false
  pub fits : within_limit stored paste ≡ true

pub require_paired_client-IsClient :
    (headers : HeaderMap) (s : AppState) (id : String)
    → require_paired_client headers s ≡ ok id
    → IsClient headers s id
unfolding require_paired_client
require_paired_client-IsClient headers s id e =
    go (text_of app_instance_id_name headers) (text_of target_name headers) refl refl e
  where
    verdict : (named target : String) → Result Error String
    verdict named target =
        if not (target == s.config.server_instance_id)
        then err app_instance_mismatch
        else if not (is_paired named s.hub)
        then err decrypt_fail
        else ok named

    go :
        (n t : Option String)
        → text_of app_instance_id_name headers ≡ n
        → text_of target_name headers ≡ t
        → try
            (ok_or missing_app_instance_id n)
            (λ named. try (ok_or app_instance_mismatch t) λ target. verdict named target)
          ≡ ok id
        → IsClient headers s id
    go none t f g h = cc
    go (some named) none f g h = cc
    go (some named) (some target) f g h =
        elim (Bool-cases (target == s.config.server_instance_id)) [
          | inr other ↦ absurd (ground (arith, rw other at h))
          | inl here ↦ elim (Bool-cases (is_paired named s.hub)) [
            | inr unknown ↦ absurd (ground (arith, rw (here, unknown) at h))
            | inl known ↦
                let same : named ≡ id = ground (arith, rw (here, known) at h) in
                record {
                  names = f ∙ ap some same;
                  targets = g ∙ ap some ((string_Comparable.same_iff target _).0 here);
                  paired = rw (← same) known;
                }
          ]
        ]

pub check_settings-IsPermitted :
    (stored : Map String String) (paste : Value)
    → check_settings stored paste ≡ ok tt
    → IsPermitted stored paste
unfolding check_settings
check_settings-IsPermitted stored paste e =
    go (setting_is "clipboard_relay" "false" stored) (type_setting (paste_type_of paste)) refl refl
      e
  where
    verdict : String → Result Error Unit
    verdict setting =
        if setting_is setting "false" stored
        then err (bad_request (append setting " is disabled"))
        else if within_limit stored paste
        then ok tt
        else err (bad_request "file exceeds the configured limit")

    go :
        (off : Bool) (name : Option String)
        → setting_is "clipboard_relay" "false" stored ≡ off
        → type_setting (paste_type_of paste) ≡ name
        → (if off
            then err (bad_request "clipboard relay is disabled")
            else try (ok_or (bad_request "unknown paste type") name) verdict)
          ≡ ok tt
        → IsPermitted stored paste
    go true name f g h = cc
    go false none f g h = cc
    go false (some setting) f g h = elim (Bool-cases (setting_is setting "false" stored)) [
      | inl off ↦ absurd (ground (arith, rw off at h))
      | inr on ↦ elim (Bool-cases (within_limit stored paste)) [
        | inl fits ↦ record {
          relays = f;
          setting = setting;
          of_type = g;
          switched_on = on;
          fits = fits;
        }
        | inr large ↦ absurd (ground (arith, rw (on, large) at h))
      ]
    ]
