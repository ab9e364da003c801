-- ===== src/Lib.antt =====
-- The web client of go-hauk, which shows the positions that people share on a map, and its server.
--
-- A phone sends positions to a server, and the client, frontend/main.js, shows them: it finds the id of
-- a share in its address, asks the server for the share, draws the trail of each user, and then polls
-- the server for newer positions until the share is over. Encrypted shares are decrypted in the browser
-- with a password. The development models this script, in the order of its life, and then the server:
-- its store, its sessions and shares, its authenticators, and the handlers of its requests:
--   Frontend/Locale: the preferred language (`prefLang`, the two requests at its top, `localizeHTML`)
--   Frontend/Link: the id of the address and `init`; `ViewLink` of model/share.go, which made the address
--   Frontend/Connection: `getJSON` and what it says about being offline
--   Frontend/Locate: the control that shows the viewer's own position (`L.control.Locate`)
--   Frontend/Polling: `setNewInterval`, its two timers and the answers to the polls
--   Frontend/Countdown: the arithmetic of `setNewInterval` on times, and the text of the clock
--   Frontend/Prompt: the head of `processUpdate`, up to where the data is in the clear, and the prompt
--   Frontend/Decrypt: the decryption in `processUpdate`, and `byteArray`
--   Frontend/Update: the rest of `processUpdate`, which puts together the parts that follow
--   Frontend/Trail: an entry of `shares`, the loop over the rows of a user, and the pruning
--   Frontend/Speed: the speed of a user, with `distance` and `velocity` of Frontend/Geometry
--   Frontend/Staleness: the loop over all users that grays out those not seen for long
--   Frontend/Dialogs: messages, the list of users, the details of a user and the buttons of these
--   Frontend/Shares: `getOldestPointTime`, `follow`, `autoCenter` and the button that navigates
--   Server/Texts: `strings.TrimSpace`
--   Server/Auth: the authenticators of auth/, and the choice of one by `NewServer` of api/server.go;
--     the handlers take whether one has no error as `authenticate`
--   Server/Config: `Load` of config/config.go, from the environment as a function
--   Server/Action: a handler as a call that changes a state and may end early with a reply, and in
--     Server/Action/Rules one rule for each kind of step
--   Server/Store: the store of store/memory.go
--   Server/Session: a session of model/session.go, with `AddPoint` and `GetPoints`
--   Server/Shares: the shares of model/share.go, their hosts and their PINs
--   Server/Db: what the handlers keep, `LoadSession`, `LoadShareType`, `LoadGroupShareByPin`, `Save` and
--     `Delete` of sessions and shares, and the random bytes
--   Server/Handlers: the configuration, `FormValue`, `Atoi` and `Itoa`, and in its children `handleCreate`,
--     `handlePost`, `handleStop`, `handleAdopt` and `handleNewLink` of api/
--   Server/Api: the routes of api/server.go and sequences of requests; Server/Api/Steps has the writes
--     that the handlers are made of as a relation, Server/Api/Handled takes the handlers apart into them
--   Server/Fetch: `handleFetch` of api/fetch.go, `GetAllPoints` and `GetAutoInterval` of model/share.go;
--     Server/Api/View puts it on the store
--   Server/Linkgen: the ids of new shares, linkgen/linkgen.go; Server/Linkgen/Open joins them to the
--     client's reading of a link
--   Server/Limiter: the rate limiter of ratelimit/ratelimit.go, `Allow` and `clientIP`
-- Server/Fetch/Solo and Server/Fetch/Group join the answers of the server to what the client makes of
-- them. Frontend/Number is the interface of the numbers of the language, and Prelude holds texts as lists of
-- bytes, objects as association lists in the order of insertion, and the lemmas on them. Each part has
-- child modules with its theorems, named for what they prove, and one named Tests that runs the
-- definitions and applies the theorems to concrete inputs.
--
-- State is passed on explicitly: a handler is a function from the variables that it uses to the
-- same variables. What an exception ends is an Option or comes with a Boolean that says whether
-- it was thrown. Events come in any order, as a list (Locale, Connection, Prompt) or as steps of
-- a relation (Locate, Polling, Dialogs, Limiter, Api). A request of the server is one step: its
-- time is fixed when it begins, and requests do not overlap. Times of the server are natural
-- numbers of nanoseconds, and what is stored expires at whole seconds. Each value of the store
-- stands for its JSON; the texts of the forms are taken to be valid UTF-8, and ints that limit
-- something not to be negative.
--
-- Floating-point numbers are an interface of the operations that the script uses; the laws that
-- a theorem needs of them stand in its section (`IsOrder` in Frontend/Trail/Incremental). The
-- tests take natural numbers for it. Times of the countdown are exact natural numbers:
-- `Date.now()` and the server's time in milliseconds, quotients in microseconds. `digits_from`
-- recurses on fuel; `show n` gives it `suc n`, and a number has no more digits than that. The
-- search for an unused id has no bound in Go, and no end of random bytes; `generate` takes a
-- number of rounds and a list of bytes, and Server/Linkgen/First says which ids it returns, and
-- after how many rounds. The store searches with as many rounds as there are bytes, since each
-- round takes one. The loop of the speed runs down the indices of the points and takes their
-- number as its bound.
--
-- Parameters stand for what is not the repository's own code: WebCrypto, `atob`, `parseFloat`
-- and the text decoder (`Crypto`), the store where a part only reads it (`load_share`,
-- `load_session`, `exists`), `rand.Read` (a list of bytes), `strconv.ParseFloat`, bcrypt, the
-- LDAP client and the lines of a file (`Libraries`), `Math.random` (`random_id`), and Leaflet's
-- `fitBounds` (`fit`). `Math.random` is taken to give each entry another id, so that an entry
-- has the elements of its own icon. Rows have six columns, as the server sends them, and no
-- coordinate is `null`. The elements that index.html has are there.
--
-- Not modelled: an exception of the drawing of decrypted points, which the `catch` of the
-- decryption takes for a wrong password, Leaflet, the styles and texts of the page, and of the
-- server the store in Redis, which is a client of another program and for which the store in
-- memory stands, the locks of the store in memory, bcrypt and the LDAP client, and the script of
-- the settings (api/dynamic.go).
pub mod Prelude
pub mod Frontend
pub mod Server
