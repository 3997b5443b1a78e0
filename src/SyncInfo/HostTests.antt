-- ===== src/SyncInfo/HostTests.antt =====
-- sync_info.rs: the address of a server with two interfaces, and the records of a text.
use crosspaste_server.Config.{v4}
use crosspaste_server.Prelude.{All, In, [], false, keep_if, none, refl, true, ◌∷◌, ◌≡◌, ◌⊎◌}
use crosspaste_server.Prelude.Int.{pos}
use crosspaste_server.Prelude.Text.{
  ascii_lowercase_of, is_ascii_uppercase, starts_with, to_ascii_lowercase,
}
use crosspaste_server.SyncInfo.Hosts.{
  Environment, Interface, dedup_after, dedup_by_address, host_info, insert_by_rank, interface_rank,
  interface_type, is_candidate, lan_host_infos, ltb_rank, sort_by_rank, subnet,
}
use crosspaste_server.SyncInfo.Ranked.{NoWorse, lan_host_infos-best}

abbrev wired : Interface
wired = record {
  name = "eth0";
  addr = v4 10 0 0 7;
  prefixlen = 8;
  is_up = true;
  is_loopback = false;
  is_link_local = false;
  is_p2p = false;
}

abbrev bridge : Interface
bridge = record wired { name = "docker0"; addr = v4 172 17 0 1; prefixlen = 16 }

abbrev env : Environment
env = record {
  os = "linux";
  arch = "x86_64";
  word_bits = 64;
  package_version = "1.2.6";
  interfaces = bridge ∷ wired ∷ [];
  show_address = λ ip. "10.0.0.7";
}

named : lan_host_infos env none ≡ host_info env (v4 10 0 0 7) (pos 8) ∷ []
unfolding lan_host_infos is_candidate sort_by_rank dedup_by_address dedup_after insert_by_rank
    ltb_rank interface_rank interface_type subnet to_ascii_lowercase ascii_lowercase_of
    is_ascii_uppercase starts_with
named = refl

lan_host_infos-best_example :
    ((keep_if (is_candidate none) (bridge ∷ wired ∷ []) ≡ []) × (lan_host_infos env none ≡ []))
    ⊎ ((i : Interface) × In i (keep_if (is_candidate none) (bridge ∷ wired ∷ []))
        × All (NoWorse i) (keep_if (is_candidate none) (bridge ∷ wired ∷ []))
        × (lan_host_infos env none ≡ host_info env i.addr (pos i.prefixlen) ∷ []))
lan_host_infos-best_example = lan_host_infos-best env none
