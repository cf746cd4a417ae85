-- ===== src/Deploy/Outputs.antt =====
-- Reading what deployments wrote (typescript/optics-deploy/src/verification/readDeployOutput.ts), and
-- the links and networks of verifyLatestDeploy.ts. A directory is the list of its entries.
use optics_monorepo.Prelude.{
  Bool, true, false, not, ◌&&◌, ◌||◌, List, [], ◌∷◌, ◌++◌, Text, codes, text_eq, Result, ok, err,
  no_config_folder, no_deploy_file, ltb, ◌==◌, if◌then◌else◌,
}
use optics_monorepo.Deploy.Chain.{is_listed}

pub record DirEntry : Type 0 where
  pub name : Text
  pub is_directory : Bool

abbrev pub starts_with : Text → Text → Bool
starts_with [] text = true
starts_with (c ∷ cs) [] = false
starts_with (c ∷ cs) (d ∷ ds) = (c == d) && starts_with cs ds

-- `text.includes(part)`
unfoldable pub contains : Text → Text → Bool
contains part [] = starts_with part []
contains part (c ∷ cs) = starts_with part (c ∷ cs) || contains part cs

-- `text.split('_')[0]`
unfoldable pub before_underscore : Text → Text
before_underscore [] = []
before_underscore (c ∷ cs) = if c == b'_' then [] else c ∷ before_underscore cs

abbrev pub contracts_suffix : Text
contracts_suffix = codes "_contracts.json"

unfoldable pub get_networks_from_deploy : List DirEntry → List Text
unfolding contains before_underscore
get_networks_from_deploy [] = []
get_networks_from_deploy (e ∷ es) =
    let rest = get_networks_from_deploy es in
    if contains contracts_suffix e.name then before_underscore e.name ∷ rest else rest

-- `a > b` on strings
unfoldable pub greater : Text → Text → Bool
greater [] t = false
greater (a ∷ s) [] = true
greater (a ∷ s) (b ∷ t) = ltb b a || ((a == b) && greater s t)

-- The directories that are not ignored.
unfoldable pub config_folders : List DirEntry → List Text → List Text
unfolding is_listed
config_folders [] ignored = []
config_folders (e ∷ es) ignored =
    let rest = config_folders es ignored in
    if e.is_directory && not (is_listed e.name ignored) then e.name ∷ rest else rest

-- The `reduce` that keeps the greater name.
unfoldable pub newest : Text → List Text → Text
unfolding greater
newest a [] = a
newest a (b ∷ bs) = newest (if greater a b then a else b) bs

unfoldable pub get_path_to_latest_config : Text → List DirEntry → List Text → Result Text
unfolding config_folders newest
get_path_to_latest_config config_path entries ignored = elim (config_folders entries ignored) [
  | [] ↦ err no_config_folder
  | f ∷ fs ↦ ok (config_path ++ (codes "/" ++ newest f fs))
]

abbrev pub default_ignored : List Text
default_ignored = codes "development" ∷ codes "staging" ∷ codes "mainnet" ∷ codes "default" ∷ []

-- `parsed` is what `JSON.parse` makes of the file of this name.
unfoldable pub parse_file_from_deploy :
    {V : Type 0} → (Text → Result V) → List DirEntry → Text → Text → Result V
parse_file_from_deploy parsed [] network file_suffix = err no_deploy_file
parse_file_from_deploy parsed (e ∷ es) network file_suffix =
    let target = network ++ (codes "_" ++ (file_suffix ++ codes ".json")) in
    let rest = parse_file_from_deploy parsed es network file_suffix in
    if text_eq e.name target then parsed target else rest

abbrev pub etherscan_networks : List Text
etherscan_networks =
    codes "mainnet"
    ∷ codes "ethereum"
    ∷ codes "kovan"
    ∷ codes "goerli"
    ∷ codes "ropsten"
    ∷ codes "rinkeby"
    ∷ codes "polygon"
    ∷ []

unfoldable pub etherscan_link : Text → Text → Text
etherscan_link network address =
    if text_eq network (codes "polygon")
    then codes "https://polygonscan.com/address/" ++ address
    else (let prefix =
          if text_eq network (codes "mainnet") || text_eq network (codes "ethereum")
          then []
          else network ++ codes "." in
        codes "https://" ++ (prefix ++ (codes "etherscan.io/address/" ++ address)))
