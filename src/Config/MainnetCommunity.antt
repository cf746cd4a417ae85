-- ===== src/Config/MainnetCommunity.antt =====
-- The domains of typescript/optics-provider/src/optics/domains/mainnetCommunity.ts.
use optics_monorepo.Prelude.{none, some, List, [], ◌∷◌, codes}
use optics_monorepo.Context.Contracts.{plain}
use optics_monorepo.Context.Optics.{OpticsDomain}

unfoldable pub celo : OpticsDomain
celo = record {
  base = record { id = 1667591279; name = codes "celo"; paginate = none };
  core = record {
    id = some 1667591279;
    home = some (codes "0x913EE05036f3cbc94Ee4afDea87ceb430524648a");
    replicas = some (
        (record { domain = 6648936; address = codes "0xcDE146d1C673fE13f4fF1569d3F0d9f4d0b9c837" })
        ∷ (record {
          domain = 1886350457;
          address = codes "0xfde0a96468ae91B4E13794E1B8e5B222E7Db6a23";
        })
        ∷ (record {
          domain = 1635148152;
          address = codes "0x2784a755690453035f32Ac5e28c52524d127AfE2";
        })
        ∷ []);
  };
  bridge = record {
    id = some 1667591279;
    bridge_router = some (plain (codes "0x1548cf5cf7dBd93f4dA11f45fCce315573d21B60"));
    eth_helper = none;
  };
}

unfoldable pub ethereum : OpticsDomain
ethereum = record {
  base = record { id = 6648936; name = codes "ethereum"; paginate = none };
  core = record {
    id = some 6648936;
    home = some (codes "0xa73a3a74C7044B5411bD61E1990618A1400DA379");
    replicas = some (
        (record {
          domain = 1667591279;
          address = codes "0x27658c5556A9a57f96E69Bbf6d3B8016f001a785";
        })
        ∷ (record {
          domain = 1886350457;
          address = codes "0x4eA75c12eD058F0e6651475688a941555FA62395";
        })
        ∷ (record {
          domain = 1635148152;
          address = codes "0xaa099aF87ACE9E437b9B410a687F263eeaeC4321";
        })
        ∷ []);
  };
  bridge = record {
    id = some 6648936;
    bridge_router = some (plain (codes "0x4fc16De11deAc71E8b2Db539d82d93BE4b486892"));
    eth_helper = some (codes "0x2784a755690453035f32Ac5e28c52524d127AfE2");
  };
}

unfoldable pub polygon : OpticsDomain
polygon = record {
  base = record {
    id = 1886350457;
    name = codes "polygon";
    paginate = some (record { blocks = 10000; from = 19657100 });
  };
  core = record {
    id = some 1886350457;
    home = some (codes "0xCf9066ee2fF063dD09862B745414c8dEa4Cc0497");
    replicas = some (
        (record {
          domain = 1667591279;
          address = codes "0x45D35F60Ccf8F7031FB5A09954Cd923A9E84F89d";
        })
        ∷ (record {
          domain = 6648936;
          address = codes "0x2784a755690453035f32Ac5e28c52524d127AfE2";
        })
        ∷ (record {
          domain = 1635148152;
          address = codes "0xfde0a96468ae91B4E13794E1B8e5B222E7Db6a23";
        })
        ∷ []);
  };
  bridge = record {
    id = some 1886350457;
    bridge_router = some (plain (codes "0x3a5846882C0d5F8B0FA4bB04dc90C013104d125d"));
    eth_helper = some (codes "0xa489b8981ae5652C9Dd6515848cB8Dbecae5E1B0");
  };
}

unfoldable pub avalanche : OpticsDomain
avalanche = record {
  base = record {
    id = 1635148152;
    name = codes "avalanche";
    paginate = some (record { blocks = 1000000; from = 6765067 });
  };
  core = record {
    id = some 1635148152;
    home = some (codes "0x101a39eA1143cb252fc8093847399046fc35Db89");
    replicas = some (
        (record {
          domain = 1667591279;
          address = codes "0xA734EDE8229970776e1B68085D579b6b6E97dAd4";
        })
        ∷ (record {
          domain = 6648936;
          address = codes "0xCf9066ee2fF063dD09862B745414c8dEa4Cc0497";
        })
        ∷ (record {
          domain = 1886350457;
          address = codes "0x706DC810c79dAAFb82D304D7C9ff9518D8B43Fae";
        })
        ∷ []);
  };
  bridge = record {
    id = some 1635148152;
    bridge_router = some (plain (codes "0xB6bB41B1fb8c381b002C405B8abB5D1De0C0abFE"));
    eth_helper = some (codes "0x4fc16De11deAc71E8b2Db539d82d93BE4b486892");
  };
}

unfoldable pub mainnet_community_domains : List OpticsDomain
unfolding celo ethereum polygon avalanche
mainnet_community_domains = celo ∷ ethereum ∷ polygon ∷ avalanche ∷ []
