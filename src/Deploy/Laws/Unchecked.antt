-- ===== src/Deploy/Laws/Unchecked.antt =====
-- What the checks of a deployment do not see (typescript/optics-deploy/src/core/checks.ts).
use optics_monorepo.Prelude.{
  ℕ, false, ◌≡◌, refl, inl, inr, List, [], ◌∷◌, length, Text, text_eq, Bool-cases, All, arith,
}
use optics_monorepo.Deploy.Solidity.Storage.{zero_address, GovernanceRouter}
use optics_monorepo.Deploy.State.{CoreDeploy}
use optics_monorepo.Deploy.Checks.{check_remote, check_each}
use optics_monorepo.Deploy.Laws.Checked.{text_eq-length}

-- A `bytes32` is 66 characters, of which the empty address has 42.
abbrev pub IsBytes32 : Text → Type 0
IsBytes32 t = length t ≡ 66

bytes32-zero_address : (t : Text) → IsBytes32 t → text_eq t zero_address ≡ false
bytes32-zero_address t sized = elim (Bool-cases (text_eq t zero_address)) [
  | inl e ↦ absurd (omega (arith, sized, text_eq-length t zero_address e))
  | inr e ↦ e
]

check_remote-routers :
    (d : CoreDeploy) (g : GovernanceRouter) (routers : ℕ → Text) (domain : ℕ)
    → IsBytes32 (g.routers domain) × IsBytes32 (routers domain)
    → check_remote d (record g { routers = routers }) domain ≡ check_remote d g domain
unfolding check_remote
check_remote-routers d g routers domain (sized, sized') =
    rw (bytes32-zero_address (g.routers domain) sized, bytes32-zero_address (routers domain) sized')
      refl

-- The checks of the remote domains have the same outcome whichever routers of 32 bytes the governance
-- router has for them, so that of a router that is not registered, whose 32 bytes are 0, too.
pub check_each-routers :
    (d : CoreDeploy) (g : GovernanceRouter) (routers : ℕ → Text) (domains : List ℕ)
    → All (λ (t : ℕ). IsBytes32 (g.routers t) × IsBytes32 (routers t)) domains
    → check_each domains (check_remote d (record g { routers = routers }))
      ≡ check_each domains (check_remote d g)
unfolding check_each
check_each-routers d g routers [] h = refl
check_each-routers d g routers (t ∷ ts) (sized, h) =
    rw (check_remote-routers d g routers t sized, check_each-routers d g routers ts h) refl
