-- ===== src/Config/Ports.antt =====
-- The port that Load accepts.
use data_loom.Common.{
  ℕ, ◌≤◌, String, ◌≡◌, refl, ap, ◌∙◌, arith, Result, ok, err, ◌==◌, string_eq, Bool-cases, inl, inr,
}
use data_loom.Config.{load_port, checked_port, Config, Environment, load, with_port}
use data_loom.Config.Decimal.{Int64, nonneg, negative, atoi}

checked_port_bounds :
    (text : String) (r : Result Int64) (p : ℕ) → checked_port text r ≡ ok p → (1 ≤ p) × (p ≤ 65535)
checked_port_bounds text (err e) p h = cc
checked_port_bounds text (ok (negative n)) p h = cc
checked_port_bounds text (ok (nonneg n)) p h = ground arith

pub load_port_bounds : (text : String) (p : ℕ) → load_port text ≡ ok p → (1 ≤ p) × (p ≤ 65535)
unfolding load_port
load_port_bounds text p h = elim (Bool-cases (text == "")) [
  | inl e ↦ let q : 8080 ≡ p = ground arith in omega arith
  | inr e ↦ checked_port_bounds text (atoi text) p (rw e at h)
]

with_port_ok :
    (env : Environment) (r : Result ℕ) (c : Config)
    → with_port env r ≡ ok c
    → (p : ℕ) × (r ≡ ok p) × (p ≡ c.port_number)
with_port_ok env (err e) c h = cc
with_port_ok env (ok p) c h = (p, refl, ap (λ r. elim r [ ok x ↦ x.port_number | err e ↦ p ]) h)

-- The port of every configuration that Load returns is the one that the environment's text gives,
-- and lies between 1 and 65535.
pub load_bounds :
    (env : Environment) (c : Config)
    → load env ≡ ok c
    → (load_port env.port_number ≡ ok c.port_number) × (1 ≤ c.port_number) × (c.port_number ≤ 65535)
unfolding load
load_bounds env c h =
    let (p, e, same) = with_port_ok env (load_port env.port_number) c h in
    let e' : load_port env.port_number ≡ ok c.port_number = e ∙ ap ok same in
    let (low, high) = load_port_bounds env.port_number c.port_number e' in (e', low, high)
