-- ===== src/Lib.antt =====
-- A model of the IMAS access layer core: the low-level interface that clients call, the contexts that it
-- hands out, the parser of the URIs that name data entries, the PanzerDB engine of the HDF5 backend, the
-- choice of time samples, and the names of AoS levels.
--
-- A client names a data entry by a URI. The low-level interface (src/al_lowlevel.cpp) makes a context of
-- it, and further contexts of the operations and of the arrays of structures in which the client reads or
-- writes; it keeps them behind integer ids in a store, and calls a backend with them.
--
-- The engine (src/hdf5/panzerdb.cpp, src/hdf5/panzerdb.h) stores the nodes of an IDS in one table of
-- rows, /index, and in one column of raw data for each element type. A client opens the arrays of
-- structures (AoS) that lead to a node one by one, writes, and closes them; the engine keeps the path of
-- what is open, gives each node its row, its place in a column and its time step, and reads the table
-- back into lookup tables.
--
-- Prelude: the names passed on, tests on numbers, lists, texts, maps, results, bit fields, integers.
-- Panzer/Types: the engine's state, a record of the members of class PanzerDB that the modelled methods
--   use, and the monad of its methods, which keeps the state on both ways out, since a method may change
--   the engine before it throws.
-- Panzer/Path: buildPathFromStack, parsePath, stripIndices.
-- Panzer/Row: the packing of a row by append_index_row and its unpacking by getLeaves, in both layouts.
-- Panzer/Append: intern_path and append_index_row.
-- Panzer/Stack: the three beginArray, endArray, incrementArrayIndex, setCurrentArrayIndex,
--   synchronizeArrayStack, isInsideDynamicAOS, getDynamicAOSPath and its cache.
-- Panzer/Write: writeDataImpl, writeDataSlicesImpl, hasFileData, getCurrentTimeForAOS,
--   advanceTimeForAOS, advanceTimebase.
-- Panzer/Loader: getLeaves behind the HDF5 reads, note_row_order, rebuildDynamicRootTimeIndex.
-- Panzer/Lookup: row_time_steps, isTimeInLeaf, rowsForTime.
-- Panzer/Query: getAOSShape, getDynamicAOSSize, isDynamicAOS, isDynamicSignal, getLeafType,
--   restoreTimeContext.
-- Panzer/Find: the rows that the reads by index take, by path and time step.
-- Panzer/Read: readSliceDirect, readTensor, readLeavesUnion, readDataByIndex and its complex and integer
--   variants, getWholeDynamicSignal behind its cache.
-- Panzer/Nearest: nearestAvailableSliceIndex, which asks rowsForTime for the slices that there are.
-- Interpolation: increasing_prefix_size, getSlicesTimesIndices and getTimeRangeIndices without resampling,
--   of src/data_interpolation.cpp, which turn a requested time into the index that the reads then use.
-- Uri: QueryDict and parse_uri of include/uri_parser.h, by which a data entry is named.
-- Context: src/al_context.cpp. Const holds the constants, Entry the constructor of DataEntryContext with
--   checkUriHost, setBackendID, buildURIFromLegacy and build_uri_from_legacy_parameters, Operation the
--   three constructors of OperationContext, Arraystruct those of ArraystructContext. The environment,
--   getpwnam, boost::split and the order of an unordered set are the parameter Machine.
-- Lowlevel: src/al_lowlevel.cpp. Store holds addLLenv, getLLenv and delLLenv, Values what a client is
--   handed (setValue, setDefaultValue, convertData, data_has_non_zero_shape), Types the interface of a
--   backend and the state, Actions the opening of a data entry, Operations the begin and end of an
--   operation, Transfer arrays of structures, reads and writes. A pointer is the uid of the context, and
--   memory that is freed is not given again; following a NULL or freed pointer is an outcome of its own.
--   Plugins is the registry of class LLplugin: registration, binding, unregisterPlugin, the search of
--   getBoundPlugins, and sequences of these calls.
-- AosPath: localAosName, collectAosChain and sanitizeAosPath of src/hdf5/aos_path_helpers.h, which name the
--   levels that the backend opens in the engine.
-- Tests: the theorems at concrete inputs, and runs of the model.
--
-- Texts are lists of byte values, maps are association lists, `size_t` and `uint64_t` counters are
-- unbounded numbers except where the code packs or tests their width: the packing of rows works on 64-bit
-- words with the masks and shifts of the source, and the time lookup on int64_t values cast to uint64_t.
-- Elements of a numeric column are their bit patterns, numbers that the engine only moves. What HDF5
-- returns (rows, path texts, extents) is an argument. Capacity reservations have no effect.
-- The binary search of rowsForTime runs on fuel for one more round than the path has rows; each round
-- shortens the interval by a row at least, so that the fuel never runs out (search_rows-SplitsAt).
-- The loop over the slashes in sanitizeAosPath runs on fuel for every byte, which is enough
--   (split_levels-enough); a decimal number is written on fuel for every unit of it, more than its digits.
-- The scans of nearestAvailableSliceIndex and the searches of a time vector are structural recursions.
-- A double is a parameter: a type with `<`, `==`, a distance, the tolerance and the invalid time. The laws
-- that the theorems ask of it (Interpolation/Samples, Times) hold of finite IEEE 754 numbers.
-- Not modelled: the HDF5 calls themselves (files, datasets, chunking, flush), of which a read within the
-- extent of a dataset is a parameter of the reads; the string column with its list spans and its reads,
-- the interpolated reads, the calls into plugins and the patterns of bindPlugin, al_context_info and the
-- other queries of the low-level interface, the other backends and the bindings.
pub mod Prelude
pub mod Panzer
pub mod Interpolation
pub mod Uri
pub mod Context
pub mod AosPath
pub mod Tests
pub mod Lowlevel
