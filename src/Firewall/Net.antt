-- ===== src/Firewall/Net.antt =====
-- `std::net::IpAddr` as the firewall uses it: compared, ordered, and used as a key. An address is
-- its big-endian number, so that the derived order on octets is the order on numbers.
use active_spectral_defense.Base.{
  ℕ, Bool, true, false, ltb, leb, ◌==◌, ◌||◌, ◌&&◌, ℕ_discrete, List, [], ◌∷◌,
}

pub data IpAddr : Type 0 where
  v4 : ℕ → IpAddr
  v6 : ℕ → IpAddr

unfoldable pub IpAddr-discrete : Discrete IpAddr
IpAddr-discrete = hlevel ℕ_discrete

-- the derived `Ord`: every v4 address is below every v6 one
unfoldable pub ip_lt : IpAddr → IpAddr → Bool
ip_lt (v4 a) (v4 b) = ltb a b
ip_lt (v4 _) (v6 _) = true
ip_lt (v6 _) (v4 _) = false
ip_lt (v6 a) (v6 b) = ltb a b

unfoldable pub ip_eq : IpAddr → IpAddr → Bool
ip_eq (v4 a) (v4 b) = a == b
ip_eq (v6 a) (v6 b) = a == b
ip_eq _ _ = false

-- `(a_ip, a_port) <= (b_ip, b_port)`, the derived order on pairs
unfoldable pub endpoint_le : IpAddr → ℕ → IpAddr → ℕ → Bool
unfolding ip_lt ip_eq
endpoint_le a p b q = ip_lt a b || (ip_eq a b && leb p q)

-- `slice.contains(&ip)`
unfoldable pub contains_ip : List IpAddr → IpAddr → Bool
unfolding ip_eq
contains_ip [] ip = false
contains_ip (x ∷ xs) ip = ip_eq x ip || contains_ip xs ip
