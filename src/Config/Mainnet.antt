-- ===== src/Config/Mainnet.antt =====
-- The domains of typescript/optics-provider/src/optics/domains/mainnet.ts.
use optics_monorepo.Prelude.{none, some, List, [], ◌∷◌, codes}
use optics_monorepo.Context.Contracts.{plain}
use optics_monorepo.Context.Optics.{OpticsDomain}

unfoldable pub ethereum : OpticsDomain
ethereum = record {
  base = record { id = 6648936; name = codes "ethereum"; paginate = none };
  core = record {
    id = some 6648936;
    home = some (codes "0xf25C5932bb6EFc7afA4895D9916F2abD7151BF97");
    replicas = some (
        (record {
          domain = 1667591279;
          address = codes "0x07b5B57b08202294E657D51Eb453A189290f6385";
        })
        ∷ (record {
          domain = 1886350457;
          address = codes "0x7725EadaC5Ee986CAc8317a1d2fB16e59e079E8b";
        })
        ∷ []);
  };
  bridge = record {
    id = some 6648936;
    bridge_router = some (plain (codes "0x6a39909e805A3eaDd2b61fFf61147796ca6aBB47"));
    eth_helper = some (codes "0xf1c1413096ff2278C3Df198a28F8D54e0369cF3A");
  };
}

unfoldable pub polygon : OpticsDomain
polygon = record {
  base = record {
    id = 1886350457;
    name = codes "polygon";
    paginate = some (record { blocks = 100; from = 18895794 });
  };
  core = record {
    id = some 1886350457;
    home = some (codes "0x97bbda9A1D45D86631b243521380Bc070D6A4cBD");
    replicas = some (
        (record { domain = 6648936; address = codes "0xf25C5932bb6EFc7afA4895D9916F2abD7151BF97" })
        ∷ (record {
          domain = 1667591279;
          address = codes "0x681Edb6d52138cEa8210060C309230244BcEa61b";
        })
        ∷ []);
  };
  bridge = record {
    id = some 1886350457;
    bridge_router = some (plain (codes "0xf244eA81F715F343040569398A4E7978De656bf6"));
    eth_helper = some (codes "0xc494bFEE14b5E1E118F93CfedF831f40dFA720fA");
  };
}

unfoldable pub celo : OpticsDomain
celo = record {
  base = record { id = 1667591279; name = codes "celo"; paginate = none };
  core = record {
    id = some 1667591279;
    home = some (codes "0x97bbda9A1D45D86631b243521380Bc070D6A4cBD");
    replicas = some (
        (record { domain = 6648936; address = codes "0xf25c5932bb6efc7afa4895d9916f2abd7151bf97" })
        ∷ (record {
          domain = 1886350457;
          address = codes "0x681Edb6d52138cEa8210060C309230244BcEa61b";
        })
        ∷ []);
  };
  bridge = record {
    id = some 1667591279;
    bridge_router = some (plain (codes "0xf244eA81F715F343040569398A4E7978De656bf6"));
    eth_helper = none;
  };
}

unfoldable pub mainnet_domains : List OpticsDomain
unfolding ethereum celo polygon
mainnet_domains = ethereum ∷ celo ∷ polygon ∷ []
