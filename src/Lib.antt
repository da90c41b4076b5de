-- ===== src/Lib.antt =====
-- A verification library of OTX server, a game server in C++ (the folder src of the repository).
--
-- The server reads and writes messages (src/networkmessage.cpp), which the protocols encrypt
-- (src/xtea.cpp) and which a pool sends periodically (src/outputmessage.cpp); one thread changes the
-- game, by the tasks of src/dispatcher.cpp. Of the game's state these are modelled: positions, the map
-- of tiles and the lines of sight over it, the things on a tile, levels and skills of players, their
-- money, parties and trades, private channels, containers of items, what moves items between them, the
-- names of those online, the stored properties of items and the files of nodes that hold them. The
-- places of Map are those of Position; its tiles are named by numbers, and what stands on one is a tile
-- of Tile; what Money looks through is a tree of containers. Transfer works on an interface of
-- cylinders, with laws that the containers of Container keep; the moves of a trade are answers to Trade.
-- Each part is modelled by one module and its children:
--
--   Common    shared names, lists and vectors of numbers, and byte arrays
--   Position  src/position.h: `Position`, `PositionEx`, their comparisons and tests of nearness
--   Xtea      src/xtea.cpp: `expand_key`, `apply_rounds`, `encrypt`, `decrypt`
--   Network   src/networkmessage.h and .cpp: the buffer of a message; `add`, `get` and their kin
--   Map       src/map.h and .cpp: the tree of tiles, `setTile`, `getTile`; in Map/Sight, `checkSightLine`,
--             `isSightClear` and `canThrowObjectTo`
--   Tile      src/tile.cpp: the things on a tile, `__getThing`, `__getIndexOfThing`, `__addThing`,
--             `__internalAddThing`, `__removeThing`, `__replaceThing` and what is asked of it
--   Level     src/player.h and .cpp: `addExperience`, `removeExperience`, `addSkillAdvance`, `addManaSpent`
--   Money     src/game.cpp: `getMoney`, `removeMoney` and `addMoney`
--   Chat      src/chat.cpp: the guests and the users of a private channel
--   Transfer  src/game.cpp: `internalMoveItem`, `internalAddItem` and `internalRemoveItem`, over the
--             virtual functions of src/cylinder.h, with the containers of Container as cylinders
--   Trade     src/game.cpp: `playerRequestTrade`, `internalStartTrade`, `playerAcceptTrade` and
--             `internalCloseTrade`
--   Party     src/party.cpp, with the invitations that src/player.cpp keeps
--   Wildcard  src/wildcardtree.cpp: the tree in which a player is looked up by the beginning of a name
--   Container src/container.cpp: the items of a container, the queries before a change
--   Prop      src/fileloader.h: `PropStream` and `PropWriteStream`
--   NodeFile  src/fileloader.cpp: `startNode`, `setProps`, `endNode`, `openFile`, `parseNode`, `getProps`
--   Dispatcher  src/dispatcher.cpp: the tasks that threads hand to the thread of the game
--   Checksum  src/tools.cpp: `adlerChecksum`
--   Autosend  src/outputmessage.cpp: the protocols whose buffers are sent periodically
--
-- A class is a record of its fields, a method a function that returns the new record; a pointer to a
-- player, an item or a protocol is a number. Numbers are natural; where the source narrows to 8, 16
-- or 32 bits the model takes the remainder, and a theorem names the bounds within which it holds. Of
-- node files only those of less than 2 ^ 31 bytes are modelled, whose positions the source's int32_t
-- holds, and money, of 64 bits, does not overflow. Loops are recursions on their lists, or on fuel:
-- `grow` in Prop doubles a number of 32 bits and has fuel for 32 rounds, which are enough from any size
-- but 0 to any up to 2 ^ 31; a ray of Map has fuel for 2 ^ 17 steps, and no two places with coordinates
-- of 16 bits are farther apart; the loops of Level have fuel for the levels, `advance` 2 ^ 16 of
-- them; the search for money takes one round for each container; a node file takes no more steps
-- than it has bytes, and `internal_add_item` one round more than the count of the item. What threads
-- do at once is a sequence of steps (Dispatcher). The capacity of players, floating-point in the source,
-- is an exact number.
--
-- Not modelled: texts and icons sent to clients, the notifications after a change of a cylinder, the
-- weights of items and other floating-point values, configuration, clocks, scripts, the database, the
-- cache and the failures of files, and the calls of libraries; what the code reads of them is an
-- argument. Of the world, the spectators of an event, the search of paths, combat and conditions are
-- left out.
mod Common
pub mod Position
pub mod Xtea
pub mod Network
pub mod Party
pub mod Wildcard
pub mod Container
pub mod Prop
pub mod Dispatcher
pub mod Autosend
pub mod Checksum
pub mod Map
pub mod Level
pub mod Money
pub mod Tile
pub mod Chat
pub mod Trade
pub mod NodeFile
pub mod Transfer
