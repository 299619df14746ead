-- ===== src/Lib.antt =====
-- jwtproxy: a forward proxy that signs requests with JWTs, and a reverse proxy that verifies them and
-- checks their claims before it sends them on. Paths are those of the repository.
--
-- How the parts interact. The signer proxy's handler asks a private key provider for a key and has
-- `Sign` put a token into the request. The verifier proxy's handler has `Verify` check the token, with a
-- key server for the public key and a nonce storage against replays, asks the claims verifiers, and
-- routes the request to the upstream. Components are made by constructors that register themselves
-- under a name that the configuration gives. An autogenerated private key is published in the key
-- registry by a manager. Everything that runs in the background is stopped through a group.
--
-- Which file models which part:
--   Common      Go's strings (lists of bytes), int64 values as integers, errors, decimal printing,
--               package strings, and the lemmas that the parts share
--   Time        time.Time and time.Duration in nanoseconds, and a clock that does not run backwards
--   Value       what encoding/json and yaml.v2 decode to, and reflect.DeepEqual on it
--   Http        requests, responses, headers and URLs, as far as the program uses them
--   Net         path.Join, path.Clean and url.QueryEscape of the standard library, as the client of the
--               registry uses them
--   Yaml        how a component reads its options
--   Nonce       generateNonce of jwt/jwt.go
--   Jwt         Sign, Verify and verifyAudience of jwt/jwt.go; go-oidc is the record Jwt.Library.Jose;
--               Preshared is jwt/keyserver/preshared/preshared.go
--   KeyServer   the interfaces of jwt/keyserver and jwt/noncestorage; Guard is what Verify relies on of a
--               nonce storage; PublishResult of jwt/keyserver/result.go
--   KeyRegistry jwt/keyserver/keyregistry/keyregistry.go: the client's requests (GetPublicKey,
--               VerifyPublicKey, DeletePublicKey, signAndDo, prepareRequest, absURL); KeyPath is the paths
--               of keys; Publish is the goroutine of PublishPublicKey; Stopping is Stop beside these
--               goroutines; Verified is Verify with this client; Construct is constructReader,
--               constructManager and the cache of jwt/keyserver/keyregistry/keycache/memory/memory.go
--   PrivateKey  jwt/privatekey/autogenerated/autogenerated.go: the states of the key, Rotation the loop
--               that changes them, Registered this loop with the registry's answers, Origin where
--               its keys come from, Stopping Stop beside the loop, Provider the constructor, Files
--               keyPath, loadPrivateKey and savePrivateKey; Preshared is
--               jwt/privatekey/preshared/preshared.go
--   NonceStorage jwt/noncestorage/local/local.go, alone, among other calls, interleaved, and against a
--               memory that is never purged (Local.Spec); Local.Construct is its constructor
--   Claims      jwt/claims/static/static.go; Static.Unordered is what it requires, without an order
--   Registry    the registration and look-up of constructors in jwt/privatekey/privatekey.go,
--               jwt/keyserver/keyserver.go, jwt/noncestorage/noncestorage.go, jwt/claims/verifier.go and
--               jwt/keyserver/keyregistry/keycache/keycache.go
--   Proxy       the handlers and the router of jwt/proxy_handlers.go, Through one after the other;
--               Construct is the handlers' constructors; Forward is NewProxy, NewReverseProxy, readCA and
--               Serve of proxy/proxy.go, Server its listener, Stop and trusted certificates, and Lifecycle
--               Serve and Stop as two threads
--   Stop        stop/stopper.go, with the goroutine that waits as a thread in any schedule
--   Config      the types and defaults of config/config.go, UnmarshalYAML and Load
--   StartUp     which proxies jwtproxy.go starts, and the test in cmd/jwtproxy/main.go before it; Entry is
--               main, Start what a start and run do, in order; Threads is the starting goroutines beside
--               main; Stopper is the goroutine that stops a proxy and then its component, and Shutdown all
--               of these beside the one of the group
--
-- State is passed explicitly: an operation takes the state of what it changes and returns it. A panic is
-- `none` or a constructor of its own, an error is a value of Common.Result. Goroutines are step
-- functions over sequences of events, or run for the rounds of their loop that are given.
--
-- Parameters, with what is assumed of them as hypotheses of the theorems: go-oidc (Jwt.Library.Jose),
-- go-cache (NonceStorage.Local.CacheLib), net/url's parser, net/http and encoding/json as far as the
-- client of the registry uses them (Http.UrlLib, KeyRegistry.NetLib), yaml.v2 (Yaml.YamlLib), the file
-- system with go-jose, pem and x509 (PrivateKey.Files, PrivateKey.Preshared, Jwt.Preshared,
-- Proxy.Forward), flag and the levels of logrus (StartUp.Entry), the clock (Time.Clock) and the source
-- of random numbers.
--
-- Bounds and fuel: generateNonce's loop has n + 1 rounds of fuel for n letters, one letter a round.
-- Decimal printing has as many rounds as the number and one, and a number has fewer digits than that.
-- int64 nanoseconds are kept in range by the premises on durations. A polling goroutine is run for any
-- finite number of rounds.
--
-- Not modelled: logging, the delivery of signals, and the servers of goproxy and net/http
-- themselves. The content type of the proxy's own answers is left out. StartUp.Shutdown leaves out the
-- entries of the group that a failed creation of a proxy adds by `Add` alone, which have no goroutine
-- of their own.
mod Common
pub mod Nonce
pub mod Time
pub mod Value
pub mod Claims
pub mod Http
pub mod KeyServer
pub mod Jwt
pub mod NonceStorage
pub mod Config
pub mod Net
pub mod Yaml
pub mod StartUp
pub mod PrivateKey
pub mod KeyRegistry
pub mod Proxy
pub mod Stop
pub mod Registry
