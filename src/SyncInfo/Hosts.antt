-- ===== src/SyncInfo/Hosts.antt =====
-- sync_info.rs: the SyncInfo of the server, and the address that it names.
use crosspaste_server.Config.{Config, IpAddr, v4, v6}
use crosspaste_server.Prelude.{
  Bool, List, Option, String, [], any, eqb, false, if◌then◌else◌, is_none_or, keep_if, leb, ltb,
  map, nat_Comparable, none, not, pair_Comparable, some, string_Comparable, take, true, ℕ, ◌&&◌,
  ◌==◌, ◌∷◌,
}
use crosspaste_server.Prelude.Int.{int_Comparable, pos, ℤ}
use crosspaste_server.Prelude.Text.{codes, starts_with, to_ascii_lowercase}
use crosspaste_server.Protocol.{pairing_version}
use crosspaste_server.SyncInfo.Info.{HostInfo, SyncInfo}

pub record Interface : Type 0 where
  pub name : String
  pub addr : IpAddr
  pub prefixlen : ℕ
  pub is_up : Bool
  pub is_loopback : Bool
  pub is_link_local : Bool
  pub is_p2p : Bool

-- What the program finds where it runs: the system, the size of a word in bits, the version of the
-- package, the network interfaces (none, where they cannot be read), and the text of an address.
pub record Environment : Type 0 where
  pub os : String
  pub arch : String
  pub word_bits : ℕ
  pub package_version : String
  pub interfaces : List Interface
  pub show_address : IpAddr → String

unfoldable pub platform_name : String → String
platform_name os =
    if os == "macos"
    then "Macos"
    else if os == "windows"
    then "Windows"
    else if os == "linux"
    then "Linux"
    else "Unknown"

unfoldable pub default_prefix : IpAddr → ℤ
default_prefix (v4 a b c d) = pos 24
default_prefix (v6 bits) = pos 64

abbrev pub is_unspecified : IpAddr → Bool
is_unspecified (v4 a b c d) = eqb a 0 && eqb b 0 && eqb c 0 && eqb d 0
is_unspecified (v6 bits) = eqb bits 0

abbrev starts_with_any : List String → List ℕ → Bool
starts_with_any prefixes name = any (λ p. starts_with (codes p) name) prefixes

unfoldable pub interface_type : List ℕ → ℕ
interface_type name =
    if starts_with_any ("en" ∷ "eth" ∷ "wlan" ∷ "wl" ∷ []) name
    then 0
    else if starts_with_any ("utun" ∷ "tun" ∷ "tap" ∷ "docker" ∷ "bridge" ∷ "veth" ∷ []) name
    then 2
    else 1

unfoldable pub subnet : IpAddr → ℕ
subnet (v4 a b c d) =
    if eqb a 192 && eqb b 168
    then 0
    else if eqb a 172 && leb 16 b && leb b 31
    then 1
    else if eqb a 10
    then 2
    else 3
subnet (v6 bits) = 3

-- The kind of the interface, that of its network, and the length of the prefix.
pub record Rank : Type 0 where
  pub kind : ℕ
  pub network : ℕ
  pub prefix : ℕ

unfoldable pub interface_rank : String → IpAddr → ℕ → Rank
unfolding interface_type subnet
interface_rank name address prefix = record {
  kind = interface_type (to_ascii_lowercase (codes name));
  network = subnet address;
  prefix = prefix;
}

-- The order of the ranks: kind first, then network, then the longer prefix.
unfoldable pub ltb_rank : Rank → Rank → Bool
ltb_rank a b =
    if eqb a.kind b.kind
    then if eqb a.network b.network then ltb b.prefix a.prefix else ltb a.network b.network
    else ltb a.kind b.kind

abbrev pub rank_of : Interface → Rank
rank_of i = interface_rank i.name i.addr i.prefixlen

-- A stable sort: an element comes before those that are not less.
unfoldable pub insert_by_rank : Interface → List Interface → List Interface
insert_by_rank i [] = i ∷ []
insert_by_rank i (x ∷ xs) =
    let rest = insert_by_rank i xs in
    if ltb_rank (rank_of x) (rank_of i) then x ∷ rest else i ∷ x ∷ xs

unfoldable pub sort_by_rank : List Interface → List Interface
unfolding insert_by_rank
sort_by_rank [] = []
sort_by_rank (x ∷ xs) = insert_by_rank x (sort_by_rank xs)

abbrev same_address : IpAddr → IpAddr → Bool
same_address (v4 a b c d) (v4 e f g h) = eqb a e && eqb b f && eqb c g && eqb d h
same_address (v6 a) (v6 b) = eqb a b
same_address _ _ = false

-- `dedup_by_key`: of neighbours with one address, the first.
unfoldable pub dedup_after : Interface → List Interface → List Interface
dedup_after kept [] = []
dedup_after kept (x ∷ xs) =
    let same = dedup_after kept xs in
    let other = dedup_after x xs in if same_address kept.addr x.addr then same else x ∷ other

unfoldable pub dedup_by_address : List Interface → List Interface
unfolding dedup_after
dedup_by_address [] = []
dedup_by_address (x ∷ xs) = x ∷ dedup_after x xs

abbrev is_v4 : IpAddr → Bool
is_v4 (v4 a b c d) = true
is_v4 (v6 bits) = false

-- An interface that may be named: of version 4, and the one that is configured, if there is one.
unfoldable pub is_candidate : Option String → Interface → Bool
is_candidate chosen i =
    i.is_up
    && not i.is_loopback
    && not i.is_link_local
    && not i.is_p2p
    && is_none_or (λ name. name == i.name) chosen
    && is_v4 i.addr

module _ (env : Environment) where
  abbrev pub host_info : IpAddr → ℤ → HostInfo
  host_info address prefix = record {
    network_prefix_length = prefix;
    host_address = env.show_address address;
    last_seen = pos 0;
  }

  unfoldable pub lan_host_infos : Option String → List HostInfo
  unfolding is_candidate sort_by_rank dedup_by_address
  lan_host_infos chosen =
      map (λ i. host_info i.addr (pos i.prefixlen))
        (take 1 (dedup_by_address (sort_by_rank (keep_if (is_candidate chosen) env.interfaces))))

  abbrev listening : IpAddr → Option String → List HostInfo
  listening ip chosen =
      if is_unspecified ip then lan_host_infos chosen else host_info ip (default_prefix ip) ∷ []

  unfoldable pub server_host_infos : Config → List HostInfo
  unfolding default_prefix lan_host_infos
  server_host_infos config = elim config.public_host [
    | some host ↦ host_info host (default_prefix host) ∷ []
    | none ↦ listening config.listen.ip config.network_interface
  ]

  unfoldable pub build_server_sync_info : Config → SyncInfo
  unfolding server_host_infos platform_name
  build_server_sync_info config = record {
    app_info = record {
      app_instance_id = config.server_instance_id;
      app_version = env.package_version;
      app_revision = "server";
      user_name = config.server_user_name;
      pairing_version = some (pos pairing_version);
    };
    endpoint_info = record {
      device_id = config.server_instance_id;
      device_name = config.server_device_name;
      platform = record {
        name = platform_name env.os;
        arch = env.arch;
        bit_mode = pos env.word_bits;
        version = env.os;
      };
      host_info_list = server_host_infos config;
      port = pos config.listen.port;
    };
  }
