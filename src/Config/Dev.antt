-- ===== src/Config/Dev.antt =====
-- The domains of typescript/optics-provider/src/optics/domains/dev.ts.
use optics_monorepo.Prelude.{none, some, List, [], ◌∷◌, codes}
use optics_monorepo.Context.Contracts.{plain}
use optics_monorepo.Context.Optics.{OpticsDomain}

unfoldable pub alfajores : OpticsDomain
alfajores = record {
  base = record { id = 1000; name = codes "alfajores"; paginate = none };
  core = record {
    id = some 1000;
    home = some (codes "0x01652e694BbD82C0900776c0406C3DFaa00e1e91");
    replicas = some (
        (record { domain = 2000; address = codes "0xB4ceF5bd5328c42F3f09b9A43F6010ea93f145f1" })
        ∷ (record { domain = 3000; address = codes "0xB5EB71E40bcAEAD5DDdc7687724f9F155Fd1a7a8" })
        ∷ []);
  };
  bridge = record {
    id = some 1000;
    bridge_router = some (plain (codes "0xDBbe03850fDF986Df1C8f1D856012f80A1f98eCc"));
    eth_helper = none;
  };
}

unfoldable pub kovan : OpticsDomain
kovan = record {
  base = record { id = 3000; name = codes "kovan"; paginate = none };
  core = record {
    id = some 3000;
    home = some (codes "0x0ED518F19fEbbd3737e39a55a8a708AFe8a9BE59");
    replicas = some (
        (record { domain = 2000; address = codes "0x6776ef96A04a40a4dCB835D42bF59649aA9daFeA" })
        ∷ (record { domain = 1000; address = codes "0xC6b39Ac67FBE3e029708390ffea130c8C0E7D30b" })
        ∷ []);
  };
  bridge = record {
    id = some 3000;
    bridge_router = some (plain (codes "0xA763Db23711537D7074392b16E84eb04993C9f5d"));
    eth_helper = some (codes "0x90b6A931Cf35a1ba72E8959948d0E041320Fa704");
  };
}

unfoldable pub rinkeby : OpticsDomain
rinkeby = record {
  base = record { id = 2000; name = codes "rinkeby"; paginate = none };
  core = record {
    id = some 2000;
    home = some (codes "0xDf4c0d67489F945C1e52440Ef8F203F4CE6e4176");
    replicas = some (
        (record { domain = 1000; address = codes "0x7f41a2A1D97DD5F75B6FF6E1b012f686fE8121E4" })
        ∷ (record { domain = 3000; address = codes "0x72877419567cd7f697A6a5F2f7dF3e07327Ea7B2" })
        ∷ []);
  };
  bridge = record {
    id = some 2000;
    bridge_router = some (plain (codes "0x926Df2b652bC8273BB2F06E8de135875bbE1D271"));
    eth_helper = some (codes "0x4e52f7e2F9f3B592dcfBD8957d36973a0308d1eF");
  };
}

unfoldable pub dev_domains : List OpticsDomain
unfolding alfajores kovan rinkeby
dev_domains = alfajores ∷ kovan ∷ rinkeby ∷ []
