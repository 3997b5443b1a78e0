-- ===== src/SyncInfo/Ranked.antt =====
-- sync_info.rs: which interface the server names.
use crosspaste_server.Config.{IpAddr, v4, v6}
use crosspaste_server.Prelude.{
  All, Bool, Bool-cases, In, List, Option, String, [], any, arith, eqb, false, if◌then◌else◌, inl,
  inr, keep_if, refl, true, ℕ, ◌&&◌, ◌/◌, ◌<◌, ◌∷◌, ◌≡◌, ◌≤◌, ◌⊎◌,
}
use crosspaste_server.Prelude.Int.{pos}
use crosspaste_server.Prelude.Text.{codes, starts_with, to_ascii_lowercase}
use crosspaste_server.SyncInfo.Hosts.{
  Environment, Interface, Rank, dedup_by_address, host_info, insert_by_rank, interface_rank,
  interface_type, is_candidate, lan_host_infos, ltb_rank, rank_of, sort_by_rank, subnet,
}

asymmetric : (a b : Rank) → ltb_rank a b ≡ true → ltb_rank b a ≡ false
unfolding ltb_rank
asymmetric a b h = ground arith

irreflexive : (a : Rank) → ltb_rank a a ≡ false
unfolding ltb_rank
irreflexive a = ground arith

-- What is not before the middle is not before the end.
negatively_transitive :
    (a b c : Rank) → ltb_rank a b ≡ false → ltb_rank b c ≡ false → ltb_rank a c ≡ false
unfolding ltb_rank
negatively_transitive a b c h k = ground arith

abbrev NoneBefore : Interface → List Interface → Type 0
NoneBefore i = All (λ j. ltb_rank (rank_of j) (rank_of i) ≡ false)

-- The first of a sorted list, with what makes it the first.
record IsBest (i : Interface) (xs : List Interface) : Type 0 where
  among : In i xs
  before : NoneBefore i xs

none_before :
    (i h : Interface) (xs : List Interface)
    → ltb_rank (rank_of h) (rank_of i) ≡ false
    → NoneBefore h xs
    → NoneBefore i xs
none_before i h [] e n = tt
none_before i h (x ∷ xs) e n =
    (negatively_transitive (rank_of x) (rank_of h) (rank_of i) n.0 e, none_before i h xs e n.1)

abbrev First : List Interface → List Interface → Type 0
First [] xs = xs ≡ []
First (h ∷ rest) xs = IsBest h xs

insert-First :
    (x : Interface) (sorted xs : List Interface)
    → First sorted xs
    → First (insert_by_rank x sorted) (x ∷ xs)
unfolding insert_by_rank
insert-First x [] xs e = rw e (record { among = inl refl; before = (irreflexive (rank_of x), tt) })
insert-First x (h ∷ rest) xs b = elim (Bool-cases (ltb_rank (rank_of h) (rank_of x))) [
  | inl less ↦
      rw less (record {
        among = inr b.among;
        before = (asymmetric (rank_of h) (rank_of x) less, b.before);
      })
  | inr not_less ↦ rw not_less (record {
    among = inl refl;
    before = (irreflexive (rank_of x), none_before x h xs not_less b.before);
  })
]

sort-First : (xs : List Interface) → First (sort_by_rank xs) xs
unfolding sort_by_rank
sort-First [] = refl
sort-First (x ∷ xs) = insert-First x (sort_by_rank xs) xs (sort-First xs)

abbrev has_prefix_of : List String → Interface → Bool
has_prefix_of prefixes i =
    any (λ p. starts_with (codes p) (to_ascii_lowercase (codes i.name))) prefixes

-- The kind of the interface, by its name in lower case: a cable or a wireless network first, a tunnel,
-- a bridge or a container last.
abbrev pub kind : Interface → ℕ
kind i =
    if has_prefix_of ("en" ∷ "eth" ∷ "wlan" ∷ "wl" ∷ []) i
    then 0
    else if has_prefix_of ("utun" ∷ "tun" ∷ "tap" ∷ "docker" ∷ "bridge" ∷ "veth" ∷ []) i
    then 2
    else 1

-- The kind of the network: 192.168/16, 172.16/12, 10/8, any other.
abbrev pub network : IpAddr → ℕ
network (v4 a b c d) =
    if eqb a 192 && eqb b 168
    then 0
    else if eqb a 172 && eqb (b / 16) 1
    then 1
    else if eqb a 10
    then 2
    else 3
network (v6 bits) = 3

-- What makes an interface no worse than another: a better kind, or the same and a better network, or
-- the same of both and a prefix that is not shorter.
abbrev pub NoWorse : Interface → Interface → Type 0
NoWorse i j =
    (kind i < kind j)
    ⊎ ((kind i ≡ kind j)
        × ((network i.addr < network j.addr)
            ⊎ ((network i.addr ≡ network j.addr) × (j.prefixlen ≤ i.prefixlen))))

kind-interface_type : (i : Interface) → interface_type (to_ascii_lowercase (codes i.name)) ≡ kind i
unfolding interface_type
kind-interface_type i = refl

network-subnet : (a : IpAddr) → subnet a ≡ network a
unfolding subnet
network-subnet (v4 a b c d) = ground arith
network-subnet (v6 bits) = refl

no_worse :
    (k l m n p q : ℕ)
    → ltb_rank
        (record { kind = l; network = n; prefix = q })
        (record { kind = k; network = m; prefix = p })
      ≡ false
    → (k < l) ⊎ ((k ≡ l) × ((m < n) ⊎ ((m ≡ n) × (q ≤ p))))
unfolding ltb_rank
no_worse k l m n p q h = ground arith

rank_of-NoWorse : (i j : Interface) → ltb_rank (rank_of j) (rank_of i) ≡ false → NoWorse i j
unfolding interface_rank
rank_of-NoWorse i j h =
    rw
      (
        ← (kind-interface_type i),
        ← (kind-interface_type j),
        ← (network-subnet i.addr),
        ← (network-subnet j.addr),
      )
      (no_worse _ _ (subnet i.addr) (subnet j.addr) i.prefixlen j.prefixlen h)

All-NoWorse : (i : Interface) (xs : List Interface) → NoneBefore i xs → All (NoWorse i) xs
All-NoWorse i [] h = tt
All-NoWorse i (x ∷ xs) h = (rank_of-NoWorse i x h.0, All-NoWorse i xs h.1)

-- Where the server has no address of its own to name, it names the one of a candidate that no candidate
-- betters: none has a better kind of interface, none of the same kind a better network, and none of
-- the same kind and network a longer prefix. It names none exactly where there is no candidate.
pub lan_host_infos-best :
    (env : Environment) (chosen : Option String)
    → let candidates = keep_if (is_candidate chosen) env.interfaces in
      ((candidates ≡ []) × (lan_host_infos env chosen ≡ []))
      ⊎ ((i : Interface) × In i candidates
          × All (NoWorse i) candidates
          × (lan_host_infos env chosen ≡ host_info env i.addr (pos i.prefixlen) ∷ []))
unfolding lan_host_infos
lan_host_infos-best env chosen =
    go (sort_by_rank (keep_if (is_candidate chosen) env.interfaces)) refl
      (sort-First (keep_if (is_candidate chosen) env.interfaces))
  where
    candidates : List Interface
    candidates = keep_if (is_candidate chosen) env.interfaces

    go :
        (sorted : List Interface)
        → sort_by_rank candidates ≡ sorted
        → First sorted candidates
        → ((candidates ≡ []) × (lan_host_infos env chosen ≡ []))
          ⊎ ((i : Interface) × In i candidates
              × All (NoWorse i) candidates
              × (lan_host_infos env chosen ≡ host_info env i.addr (pos i.prefixlen) ∷ []))
    go [] e b = inl (b, unfold dedup_by_address in rw e refl)
    go (i ∷ rest) e b =
        inr (i, b.among, All-NoWorse i candidates b.before, unfold dedup_by_address in rw e refl)
