-- ===== src/Server/Build/Tests.antt =====
-- Instances for the life of a server of nwep/src/server.rs.
use nwep_rs.Base.{ℕ, suc, pos, neg, some, none, true, []}
use nwep_rs.Server.Build.{ServerBuilder, ListenApi, build, build_from_fd}
use nwep_rs.Server.Build.Lives.{Sound, NotListened, NotAdopted, build-Sound}

-- A library that listens and takes no handler.
abbrev sample_listen : ListenApi ℕ
sample_listen = record {
  listen = λ reuse i a w. (pos 0, suc w);
  listen_fd = λ i fd shard w. (pos 0, suc w);
  set_max_parked = λ n w. suc w;
  set_handler = λ w. (neg 802, suc w);
}

abbrev sample_builder : ServerBuilder
sample_builder = record {
  identity = some 1;
  bind = some 2;
  handler = some 3;
  reuse_port = true;
  max_parked = some 64;
  dht_bootstraps = [];
  dht_announce = none;
  dht_initial_seq = 0;
}

build-Sound_example :
    Sound
      (NotListened sample_listen sample_builder 0)
      (some 3)
      4
      (build sample_listen sample_builder 0)
    × Sound
        (NotAdopted sample_listen sample_builder 7 none 0)
        (some 3)
        4
        (build_from_fd sample_listen sample_builder 7 none 0)
build-Sound_example = build-Sound sample_listen 4 sample_builder 7 none 0
