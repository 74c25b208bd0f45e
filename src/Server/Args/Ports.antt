-- ===== src/Server/Args/Ports.antt =====
-- The range of ports that `-p` accepts.
use rmosh.Prelude.{ℕ, ◌≤◌, ◌<◌, ◌≡◌, refl, Option, none, some, List, arith, ◌>>=?◌}
use rmosh.Strings.{parse_u16, parse_u16-bound, split_at_first}
use rmosh.Server.Args.{parse_portrange, port_range}

port_range-bounds :
    (a b lo hi : ℕ)
    → b ≤ 65535
    → port_range a b ≡ some (lo, hi)
    → (0 < lo) × (lo ≤ hi) × (hi < 65536)
port_range-bounds a b lo hi small h = ground arith

one_port :
    (o : Option ℕ) (lo hi : ℕ)
    → ((p : ℕ) → o ≡ some p → p ≤ 65535)
    → (o >>=? λ p. port_range p p) ≡ some (lo, hi)
    → (0 < lo) × (lo ≤ hi) × (hi < 65536)
one_port none lo hi small h = cc
one_port (some p) lo hi small h = port_range-bounds p p lo hi (small p refl) h

two_ports :
    (o q : Option ℕ) (lo hi : ℕ)
    → ((p : ℕ) → q ≡ some p → p ≤ 65535)
    → (o >>=? λ from. q >>=? λ to. port_range from to) ≡ some (lo, hi)
    → (0 < lo) × (lo ≤ hi) × (hi < 65536)
two_ports none q lo hi small h = cc
two_ports (some a) none lo hi small h = cc
two_ports (some a) (some b) lo hi small h = port_range-bounds a b lo hi (small b refl) h

split_ports :
    (o : Option (List ℕ × List ℕ)) (s : List ℕ) (lo hi : ℕ)
    → (elim o [
      | none ↦ parse_u16 s >>=? λ p. port_range p p
      | some (a, b) ↦ parse_u16 a >>=? λ from. parse_u16 b >>=? λ to. port_range from to
    ])
      ≡ some (lo, hi)
    → (0 < lo) × (lo ≤ hi) × (hi < 65536)
split_ports none s lo hi h = one_port (parse_u16 s) lo hi (parse_u16-bound s) h
split_ports (some (a, b)) s lo hi h =
    two_ports (parse_u16 a) (parse_u16 b) lo hi (parse_u16-bound b) h

-- A range of ports that is accepted has two ends from 1 to 65535, the lower one first.
pub parse_portrange-bounds :
    (s : List ℕ) (lo hi : ℕ)
    → parse_portrange s ≡ some (lo, hi)
    → (0 < lo) × (lo ≤ hi) × (hi < 65536)
unfolding parse_portrange
parse_portrange-bounds s lo hi h = split_ports (split_at_first b':' s) s lo hi h
