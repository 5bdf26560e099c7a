-- ===== src/Container/Image.antt =====
-- `Image` of packages/dns-test/src/container.rs and the files of packages/dns-test/src/docker.
use dnssec_tests.Base.{◌++◌}
use dnssec_tests.Text.{Text, codes}
use dnssec_tests.Implementation.{Implementation, Repository}

pub data Image : Type 0 where
  bind client unbound : Image
  hickory : Repository → Image

-- bind.Dockerfile.
abbrev bind_dockerfile : Text
bind_dockerfile =
    codes "FROM debian:bookworm-slim\n"
    ++ codes "\n"
    ++ codes "# ldns-utils = ldns-{key2ds,keygen,signzone}\n"
    ++ codes "# rm = remove default configuration files\n"
    ++ codes "RUN apt-get update && \\\n"
    ++ codes "    apt-get install -y \\\n"
    ++ codes "        bind9 \\\n"
    ++ codes "        ldnsutils \\\n"
    ++ codes "        tshark && \\\n"
    ++ codes "    rm -f /etc/bind/*\n"

-- client.Dockerfile.
abbrev client_dockerfile : Text
client_dockerfile =
    codes "FROM debian:bookworm-slim\n"
    ++ codes "\n"
    ++ codes "# dnsutils = dig & delv\n"
    ++ codes "# iputils-ping = ping\n"
    ++ codes "RUN apt-get update && \\\n"
    ++ codes "    apt-get install -y \\\n"
    ++ codes "        dnsutils \\\n"
    ++ codes "        iputils-ping\n"

-- hickory.Dockerfile.
abbrev hickory_dockerfile : Text
hickory_dockerfile =
    codes "FROM rust:1-slim-bookworm\n"
    ++ codes "\n"
    ++ codes "# ldns-utils = ldns-{key2ds,keygen,signzone}\n"
    ++ codes "RUN apt-get update && \\\n"
    ++ codes "    apt-get install -y \\\n"
    ++ codes "        ldnsutils \\\n"
    ++ codes "        tshark\n"
    ++ codes "\n"
    ++ codes "# `dns-test` will invoke `docker build` from a temporary directory that contains\n"
    ++ codes "# a clone of the hickory repository. `./src` here refers to that clone; not to\n"
    ++ codes "# any directory inside the `dns-test` repository\n"
    ++ codes "COPY ./src /usr/src/hickory\n"
    ++ codes
        "RUN cargo install --path /usr/src/hickory/bin --features recursor,dnssec-ring --debug && \\\n"
    ++ codes "    mkdir /etc/hickory\n"
    ++ codes "env RUST_LOG=debug\n"

-- unbound.Dockerfile.
abbrev unbound_dockerfile : Text
unbound_dockerfile =
    codes "FROM debian:bookworm-slim\n"
    ++ codes "\n"
    ++ codes "# ldns-utils = ldns-{key2ds,keygen,signzone}\n"
    ++ codes "RUN apt-get update && \\\n"
    ++ codes "    apt-get install -y \\\n"
    ++ codes "        ldnsutils \\\n"
    ++ codes "        nsd \\\n"
    ++ codes "        tshark \\\n"
    ++ codes "        unbound\n"

unfoldable pub dockerfile : Image → Text
dockerfile Image.bind = bind_dockerfile
dockerfile Image.client = client_dockerfile
dockerfile (Image.hickory _) = hickory_dockerfile
dockerfile Image.unbound = unbound_dockerfile

-- `From<Implementation>`.
unfoldable pub from_implementation : Implementation → Image
from_implementation Implementation.bind = Image.bind
from_implementation Implementation.unbound = Image.unbound
from_implementation (Implementation.hickory repo) = Image.hickory repo

unfoldable pub to_string : Image → Text
to_string Image.client = codes "client"
to_string Image.bind = codes "bind"
to_string (Image.hickory _) = codes "hickory"
to_string Image.unbound = codes "unbound"
