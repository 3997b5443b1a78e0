-- ===== src/Hub/Icons.antt =====
-- hub.rs: the icons of the applications that pastes come from, in files named by a digest.
use crosspaste_server.Hub.State.{Action, on_files, open_icon, write_icon}
use crosspaste_server.Prelude.{
  List, Result, String, err, if◌then◌else◌, leb, length, lift, nat_Comparable, not, ok,
  pair_Comparable, string_Comparable, ℕ, ◌&&◌, ◌==◌, ◌>>=◌,
}
use crosspaste_server.Prelude.Bytes.{as_bytes}
use crosspaste_server.Prelude.Formats.{hex}
use crosspaste_server.Prelude.Int.{int_Comparable}
use crosspaste_server.Prelude.Text.{codes_Comparable}
use crosspaste_server.Secure.Messages.{Crypto}

module _ (c : Crypto) where
  unfoldable pub icon_path : String → Result String (List ℕ)
  unfolding hex
  icon_path source =
      if not (source == "") && leb (length (as_bytes source)) 1024
      then ok (hex (c.sha256 (as_bytes source)))
      else err "invalid icon source"

  unfoldable pub store_icon : String → List ℕ → Action Unit
  unfolding icon_path
  store_icon source bytes = do path ← lift (icon_path source); on_files (write_icon path bytes)

  unfoldable pub read_icon : String → Action (List ℕ)
  unfolding icon_path
  read_icon source = do path ← lift (icon_path source); on_files (open_icon path)
