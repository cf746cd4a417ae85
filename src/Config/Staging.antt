-- ===== src/Config/Staging.antt =====
-- The domains of typescript/optics-provider/src/optics/domains/staging.ts.
use optics_monorepo.Prelude.{none, some, List, [], ◌∷◌, codes}
use optics_monorepo.Context.Contracts.{plain}
use optics_monorepo.Context.Optics.{OpticsDomain}

unfoldable pub alfajores : OpticsDomain
alfajores = record {
  base = record { id = 1000; name = codes "alfajores"; paginate = none };
  core = record {
    id = some 1000;
    home = some (codes "0x47AaF05B1C36015eC186892C43ba4BaF91246aaA");
    replicas = some (
        (record { domain = 2000; address = codes "0x7804079cF55110dE7Db5aA67eB1Be00cBE9CA526" })
        ∷ (record { domain = 3000; address = codes "0x6B8D6947B9b70f3ff1b547a15B969F625d28104a" })
        ∷ []);
  };
  bridge = record {
    id = some 1000;
    bridge_router = some (plain (codes "0xd6930Ee55C141E5Bb4079d5963cF64320956bb3E"));
    eth_helper = none;
  };
}

unfoldable pub kovan : OpticsDomain
kovan = record {
  base = record { id = 3000; name = codes "kovan"; paginate = none };
  core = record {
    id = some 3000;
    home = some (codes "0x5B55C29A10aEe6D5750F128C6a8f490de763ccc7");
    replicas = some (
        (record { domain = 2000; address = codes "0xC1AB4d72548Cc1C248EAdcD340035C3b213a47C3" })
        ∷ (record { domain = 1000; address = codes "0xE63E73339501EE3A8d2928d6C88cf30aC8556Ee0" })
        ∷ []);
  };
  bridge = record {
    id = some 3000;
    bridge_router = some (plain (codes "0x359089D34687bDbFD019fCC5093fFC21bE9905f5"));
    eth_helper = some (codes "0x411ABcFD947212a0D64b97C9882556367b61704a");
  };
}

unfoldable pub rinkeby : OpticsDomain
rinkeby = record {
  base = record { id = 2000; name = codes "rinkeby"; paginate = none };
  core = record {
    id = some 2000;
    home = some (codes "0x6E6010E6bd43a9d2F7AE3b7eA9f61760e58758f3");
    replicas = some (
        (record { domain = 1000; address = codes "0x6A5F9531D1877ebE96Bc0631DbF64BBCf1f7421c" })
        ∷ (record { domain = 3000; address = codes "0x6554bc7a5C35bA64Bf48FA8a9e662d8808aaa890" })
        ∷ []);
  };
  bridge = record {
    id = some 2000;
    bridge_router = some (plain (codes "0x8FbEA25D0bFDbff68F2B920df180e9498E9c856A"));
    eth_helper = some (codes "0x1BEBC8F1260d16EE5d1CFEE9366bB474bD13DC5f");
  };
}

unfoldable pub staging_domains : List OpticsDomain
unfolding alfajores kovan rinkeby
staging_domains = alfajores ∷ kovan ∷ rinkeby ∷ []
