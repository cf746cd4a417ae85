-- ===== src/Deploy/Laws/Proxies.antt =====
-- The last loop of `checkCoreDeploy` (typescript/optics-deploy/src/core/checks.ts).
use optics_monorepo.Prelude.{
  ℕ, ◌≡◌, refl, ap, inl, inr, some, List, [], ◌∷◌, Text, text_eq, Bool-cases, ok,
}
use optics_monorepo.Deploy.Solidity.Storage.{Replica}
use optics_monorepo.Deploy.State.{ContractVerificationInput, BeaconProxy, CoreDeploy, replica}
use optics_monorepo.Deploy.Checks.{
  replica_proxy_name, first_named, overwrite_first, find_proxy, find_proxies, check_contracts,
  check_core_deploy,
}

-- The entry that was first is first still, with the address that was written over its own.
first_named-overwrite_first :
    (name addr : Text) (cs : List ContractVerificationInput) (c : ContractVerificationInput)
    → first_named name cs ≡ some c
    → first_named name (overwrite_first name addr cs) ≡ some (record c { address = addr })
unfolding first_named overwrite_first
first_named-overwrite_first name addr [] c e = absurd cc
first_named-overwrite_first name addr (x ∷ xs) c e = elim (Bool-cases (text_eq x.name name)) [
  | inl q ↦
      rw (q, first_named, q)
        (ap (λ (y : ContractVerificationInput). some (record y { address = addr }))
          (some_inj (rw q at e)))
  | inr q ↦ rw (q, first_named, q) (first_named-overwrite_first name addr xs c (rw q at e))
]
  where
    some_inj : {a b : ContractVerificationInput} → some a ≡ some b → a ≡ b
    some_inj h = cc

-- The replicas of a list of domains, each found.
abbrev pub Found : CoreDeploy → List ℕ → List (BeaconProxy Replica) → Type 0
Found d [] [] = Unit
Found d [] (r ∷ rs) = ⊥
Found d (t ∷ ts) [] = ⊥
Found d (t ∷ ts) (r ∷ rs) = (replica d t ≡ ok r) × Found d ts rs

-- The entries for Etherscan after the loop: each replica's address in turn was written over that of
-- the first replica proxy.
unfoldable pub overwritten :
    List (BeaconProxy Replica) → List ContractVerificationInput → List ContractVerificationInput
unfolding overwrite_first
overwritten [] cs = cs
overwritten (r ∷ rs) cs = overwritten rs (overwrite_first replica_proxy_name r.proxy.address cs)

Found-inputs :
    (d : CoreDeploy) (cs : List ContractVerificationInput) (ts : List ℕ)
    (rs : List (BeaconProxy Replica))
    → Found d ts rs
    → Found (record d { verification_input = cs }) ts rs
Found-inputs d cs [] [] h = tt
Found-inputs d cs [] (r ∷ rs) h = absurd h
Found-inputs d cs (t ∷ ts) [] h = absurd h
Found-inputs d cs (t ∷ ts) (r ∷ rs) (e, h) = (e, Found-inputs d cs ts rs h)

pub find_proxies-Found :
    (ts : List ℕ) (rs : List (BeaconProxy Replica)) (d : CoreDeploy) (c : ContractVerificationInput)
    → Found d ts rs
    → first_named replica_proxy_name d.verification_input ≡ some c
    → find_proxies ts d
      ≡ (ok tt, record d { verification_input = overwritten rs d.verification_input })
unfolding find_proxies find_proxy overwritten
find_proxies-Found [] [] d c h e = refl
find_proxies-Found [] (r ∷ rs) d c h e = absurd h
find_proxies-Found (t ∷ ts) [] d c h e = absurd h
find_proxies-Found (t ∷ ts) (r ∷ rs) d c (q, h) e =
    let marked = overwrite_first replica_proxy_name r.proxy.address d.verification_input in
    rw (q, find_proxy, e)
      (find_proxies-Found ts rs (record d { verification_input = marked })
        (record c { address = r.proxy.address }) (Found-inputs d marked ts rs h)
        (first_named-overwrite_first replica_proxy_name r.proxy.address d.verification_input c e))

-- The address that the first entry has in the end.
abbrev pub last_address : List (BeaconProxy Replica) → Text → Text
last_address [] addr = addr
last_address (r ∷ rs) addr = last_address rs r.proxy.address

first_named-overwritten :
    (rs : List (BeaconProxy Replica)) (cs : List ContractVerificationInput)
    (c : ContractVerificationInput)
    → first_named replica_proxy_name cs ≡ some c
    → first_named replica_proxy_name (overwritten rs cs)
      ≡ some (record c { address = last_address rs c.address })
unfolding overwritten
first_named-overwritten [] cs c e = e
first_named-overwritten (r ∷ rs) cs c e =
    first_named-overwritten rs (overwrite_first replica_proxy_name r.proxy.address cs)
      (record c { address = r.proxy.address })
      (first_named-overwrite_first replica_proxy_name r.proxy.address cs c e)

-- When the checks that only read pass and there is an entry for a replica's proxy, `checkCoreDeploy`
-- returns, and leaves in the first such entry the address of the last remote domain's replica; nothing
-- but the entries for Etherscan is changed.
pub check_core_deploy-last_address :
    (d : CoreDeploy) (domains : List ℕ) (governing : ℕ) (c : ContractVerificationInput)
    (rs : List (BeaconProxy Replica))
    → check_contracts d domains governing ≡ ok tt
    → Found d domains rs
    → first_named replica_proxy_name d.verification_input ≡ some c
    → (cs : List ContractVerificationInput) × (check_core_deploy domains governing d
        ≡ (ok tt, record d { verification_input = cs }))
      × (first_named replica_proxy_name cs
          ≡ some (record c { address = last_address rs c.address }))
unfolding check_core_deploy
check_core_deploy-last_address d domains governing c rs passes found e = (
  overwritten rs d.verification_input,
  rw passes (find_proxies-Found domains rs d c found e),
  first_named-overwritten rs d.verification_input c e,
)
