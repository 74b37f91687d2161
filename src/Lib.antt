-- ===== src/Lib.antt =====
-- The web server library vweb (packages vweb, server and builtin): models of its parts as
-- functions, and proofs about them.
--
-- The program serves HTTP. A Route (route.go) finds the handler of a request, by an exact path or
-- by the first registered pattern that fits, and takes parameters out of the path; a SiteMan
-- (Site.go) gives the site of a host, with wildcards (func.go). Files that no script makes are
-- served by serverHandlerStatic.go: it reads the Range header, negotiates the headers of the answer
-- and writes the whole file, one block, or several as parts. Sessions (Sessions.go) keeps the
-- sessions of the users until they expire, and a session runs its deferred calls at its end
-- (defer.go). Cookies are read by Cookie.go. A Forward (rewrite.go) rewrites paths before they are
-- served. The templates of dynamic pages are kept in a cache and shared by reference counts
-- (serverHandlerDynamic.go). A Group (server/Server.go) keeps the listeners, the sites and the
-- clients of their plugins that its configuration asks for, and finds the page of a request.
-- Package builtin has the arithmetic of the scripts in them.
--
-- Conventions. A Go string is the list of its bytes (Common/Strings, with the functions of package
-- strings that the program calls, after their documentation; TrimSpace for the white space of
-- ASCII). A map is an association list that is read and written only by `lookup`, `insert` and
-- `erase` (Common/Maps). A result `(v, ok)` or `(v, err)` is an Option, a panic is `panics` of
-- Common/Results. Numbers are the native ones; what Go computes in int64 is an ℤ (Common/Int)
-- wherever it can be negative, and in the arithmetic of the scripts, where it can wrap around, its
-- bits in two's complement. Times are natural numbers: files and dates before 1970 are left out. A
-- mutable object is a record that an operation returns anew, and a loop is a function of its
-- variables, structural in the list that it walks; the loop of readCookies over a line runs on
-- fuel, the number of bytes of the line, and is proved to end within it. An operation under a lock
-- is one step. A shared object that several places point to is a number into a heap (the sites of
-- Server/Sites, the templates of Dynamic/Cache).
--
-- The files, with the code that they model:
--   Route/Segment     route.go, segmentPart and parsePlaceholderSegment
--   Route/Extract     route.go, extractParamsFromSegment(Preparsed) and parsePathParamsPreparsed
--   Route/Table       route.go, routePathPlaceholder, Route, addHandle, removeHandle, HandleFunc,
--                     HandleFuncDot, SetSiteMan; func.go, isRegex
--   Route/Serve       route.go, ServeHTTP: its outcome says which handler runs and with what
--   Domain            func.go, derogatoryDomain and equalDomain; Site.go, SiteMan
--   Cookies           Cookie.go, readCookies; Httpguts is the parameter for package httpguts
--   Rewrite           rewrite.go, Compile and Rewrite
--   Dynamic/Templater serverHandlerDynamic.go, refCountedTemplater; what stands between Lock and Unlock
--                     is one step, and Step is the relation of the steps of all users
--   Dynamic/Cache     serverHandlerDynamic.go, getOrCreateExecutor, cleanupCacheEntry, parseAndCache,
--                     Close; Turn is the relation of the steps of all requests
--   Sessions          Sessions.go, the table of sessions; Sessioner is the interface of that name
--   ExitCalls         defer.go, ExitCall; Session.go, Defer and Free
--   Script/Words      builtin/number.go, computeInt and computeUint on bits
--   Script/Numbers    builtin/number.go, Compute, Add, Sub, Mul, Quo, Mod, Inc, Dec, Neg
--   Script/Comparisons
--                     builtin/boolean.go, LT, GT, LE, GE
--   Server/Listeners  server/Server.go, updateConfigServers, listenStart, listenStop, serve; Settings is
--                     the parameter for package config, and a server is told apart by a number
--   Server/Sites      server/Server.go, updateConfigSites, updateSitePoolAdd, updateSitePoolDel and
--                     updateExtInfo; Site.go, NewSite; SiteSettings is the parameter for package config
--   Server/Requests   server/Server.go, serveHTTP; server/func.go; func.go, PagePath; Os is the parameter
--                     for the file system and the names of it
--   Server/Life       server/Server.go, NewGroup, Start, Close, UpdateConfig, LoadConfigFile
--   Server/Plugins    server/Server.go, the clients of the plugins of a site
--   Vmap              the parameter that stands for package vmap, and association lists as an instance
--   Static/Ranges     serverHandlerStatic.go, blockRange and ranges
--   Static/Etag       serverHandlerStatic.go, etag, etagMatch
--   Static/Headers    serverHandlerStatic.go, setHeader and the setters that it calls
--   Static/Serve      serverHandlerStatic.go, body and the course of ServeHTTP behind os.Stat
--   Static/Numbers    strconv.ParseInt, %d and %x, as the handler uses them
--   Regexps           the parameter that stands for packages regexp and path
-- The modules below each of them hold the proofs, and the modules called Tests the runs and the
-- theorems at concrete inputs.
--
-- Not modelled: what a handler writes, the resolution of a path in the file system, the sockets and
-- the TLS set-up (server, plugin), calls of Start and Close of a group that run at the same time,
-- the configuration reader (server/config), the running of the pages of serverHandlerDynamic.go,
-- the header Set-Cookie and the calls of net/http in Cookie.go, dot.go, and what works by
-- reflection in the library of the scripts (builtin). Of the merged settings that UpdateConfig
-- writes back into the configuration those of the listeners are kept, not those of the plugins and
-- the Forward of a site. The end of the goroutine of a server takes the address that the server has
-- by then as an argument: Serve overwrites the field Addr with the address of the listener.
pub mod Common
pub mod Regexps
pub mod Cookies
pub mod Route
pub mod Domain
pub mod Static
pub mod Rewrite
pub mod Dynamic
pub mod Vmap
pub mod Sessions
pub mod ExitCalls
pub mod Script
pub mod Server
